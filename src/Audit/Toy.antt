-- ===== src/Audit/Toy.antt =====
-- A hash and a JSON text to run the audit log with.
use sih.Prelude.{ℕ, zero, suc, ◌≡◌, refl, [], ◌∷◌, arith, length}
use sih.Prelude.Bytes.{Bytes}
use sih.Prelude.Text.{codes}
use sih.Audit.{Hashing}
use sih.Audit.Chain.{HasWidth}

-- A digest that keeps the first 64 characters, filled up with zeros.
abbrev pub fill : ℕ → Bytes → Bytes
fill zero b = []
fill (suc n) [] = b'0' ∷ fill n []
fill (suc n) (c ∷ b) = c ∷ fill n b

pub length-fill : (n : ℕ) (b : Bytes) → length (fill n b) ≡ n
length-fill zero b = refl
length-fill (suc n) [] = omega (arith, length-fill n [])
length-fill (suc n) (c ∷ b) = omega (arith, length-fill n b)

abbrev pub toy : Hashing
toy = record { Detail = Bytes; empty_detail = codes "{}"; dumps = λ d. d; hexdigest = fill 64 }

pub toy_width : HasWidth toy
toy_width = length-fill 64
