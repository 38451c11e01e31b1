-- ===== src/Prelude/Split.antt =====
-- `str.split` at one character and `str.join` by it.
use sih.Prelude.{
  ℕ, ◌≡◌, ◌≢◌, refl, false, List, [], ◌∷◌, ◌++◌, arith, ◌==◌, if◌then◌else◌, All, Bool-cases, inl,
  inr,
}
use sih.Prelude.Bytes.{Bytes}

abbrev pub first_with : ℕ → List Bytes → List Bytes
first_with c [] = (c ∷ []) ∷ []
first_with c (part ∷ parts) = (c ∷ part) ∷ parts

-- `s.split(sep)`
unfoldable pub split_on : ℕ → Bytes → List Bytes
split_on sep [] = [] ∷ []
split_on sep (c ∷ s) =
    let rest = split_on sep s in if c == sep then [] ∷ rest else first_with c rest

-- `sep.join(parts)`
unfoldable pub join_with : ℕ → List Bytes → Bytes
join_with sep [] = []
join_with sep (part ∷ []) = part
join_with sep (part ∷ q ∷ parts) = part ++ sep ∷ join_with sep (q ∷ parts)

abbrev pub Lacks : ℕ → Bytes → Type 0
Lacks sep = All (λ c. c ≢ sep)

pub split_on-All-Lacks : (sep : ℕ) (s : Bytes) → All (Lacks sep) (split_on sep s)
unfolding split_on
split_on-All-Lacks sep [] = (tt, tt)
split_on-All-Lacks sep (c ∷ s) = elim (Bool-cases (c == sep)) [
  | inl e ↦ rw e (tt, split_on-All-Lacks sep s)
  | inr e ↦ rw e (first_with_lacks (split_on sep s) (ground arith) (split_on-All-Lacks sep s))
]
  where
    first_with_lacks :
        (parts : List Bytes)
        → c ≢ sep
        → All (Lacks sep) parts
        → All (Lacks sep) (first_with c parts)
    first_with_lacks [] h a = ((h, tt), tt)
    first_with_lacks (p ∷ parts) h (b, a) = ((h, b), a)

pub split_on-append :
    (sep : ℕ) (part s : Bytes)
    → Lacks sep part
    → split_on sep (part ++ sep ∷ s) ≡ part ∷ split_on sep s
unfolding split_on
split_on-append sep [] s h = ground arith
split_on-append sep (c ∷ part) s (n, h) =
    let e : (c == sep) ≡ false = ground arith in rw e (rw (split_on-append sep part s h))

split_on-part : (sep : ℕ) (part : Bytes) → Lacks sep part → split_on sep part ≡ part ∷ []
unfolding split_on
split_on-part sep [] h = refl
split_on-part sep (c ∷ part) (n, h) =
    let e : (c == sep) ≡ false = ground arith in rw e (rw (split_on-part sep part h))

-- Splitting a joined text gives its parts back.
pub split_on-join_with :
    (sep : ℕ) (part : Bytes) (parts : List Bytes)
    → All (Lacks sep) (part ∷ parts)
    → split_on sep (join_with sep (part ∷ parts)) ≡ part ∷ parts
unfolding join_with
split_on-join_with sep part [] (h, a) = split_on-part sep part h
split_on-join_with sep part (q ∷ parts) (h, a) =
    rw (split_on-append sep part (join_with sep (q ∷ parts)) h)
      (rw (split_on-join_with sep q parts a))
