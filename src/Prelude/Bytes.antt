-- ===== src/Prelude/Bytes.antt =====
-- Byte strings, and texts as lists of code points: equality and the searches that the program
-- makes in them.
use sih.Prelude.{
  ℕ, ◌+◌, ◌-◌, ◌≡◌, refl, Bool, true, false, ◌&&◌, ◌||◌, List, [], ◌∷◌, ◌++◌, map, arith, ◌==◌, leb,
  take, drop, if◌then◌else◌,
}
use mathlib.Core.List.{reverse}

abbrev pub Bytes : Type 0
Bytes = List ℕ

unfoldable pub bytes_eq : Bytes → Bytes → Bool
bytes_eq [] [] = true
bytes_eq [] (y ∷ ys) = false
bytes_eq (x ∷ xs) [] = false
bytes_eq (x ∷ xs) (y ∷ ys) = x == y && bytes_eq xs ys

pub bytes_eq→eq : (a b : Bytes) → bytes_eq a b ≡ true → a ≡ b
unfolding bytes_eq
bytes_eq→eq [] [] h = refl
bytes_eq→eq [] (y ∷ ys) h = ground arith
bytes_eq→eq (x ∷ xs) [] h = ground arith
bytes_eq→eq (x ∷ xs) (y ∷ ys) h = ground (arith, bytes_eq→eq xs ys)

pub bytes_eq_refl : (a : Bytes) → bytes_eq a a ≡ true
unfolding bytes_eq
bytes_eq_refl [] = refl
bytes_eq_refl (x ∷ xs) = ground (arith, bytes_eq_refl xs)

pub eq→bytes_eq : (a b : Bytes) → a ≡ b → bytes_eq a b ≡ true
eq→bytes_eq a b e = rw e (bytes_eq_refl b)

-- `s.startswith(prefix)`
unfoldable pub starts_with : Bytes → Bytes → Bool
starts_with [] s = true
starts_with (p ∷ ps) [] = false
starts_with (p ∷ ps) (c ∷ s) = p == c && starts_with ps s

-- `part in s`
unfoldable pub contains : Bytes → Bytes → Bool
unfolding starts_with
contains part [] = starts_with part []
contains part (c ∷ s) = starts_with part (c ∷ s) || contains part s

-- ASCII white space, as `bytes.strip` removes it.
abbrev pub is_space : ℕ → Bool
is_space c = c == 32 || leb 9 c && leb c 13

unfoldable pub lstrip : Bytes → Bytes
lstrip [] = []
lstrip (c ∷ s) = let rest = lstrip s in if is_space c then rest else c ∷ s

unfoldable pub strip : Bytes → Bytes
unfolding lstrip
strip s = reverse (lstrip (reverse (lstrip s)))

-- `bytes.lower`
unfoldable pub lower : Bytes → Bytes
lower = map (λ c. if leb b'A' c && leb c b'Z' then c + 32 else c)

-- `bytes.splitlines`: lines end in LF, CR or CR LF. The arguments are the line so far and whether
-- the last byte was a CR.
unfoldable pub splitlines_from : Bytes → Bool → Bytes → List Bytes
splitlines_from line after_cr [] = elim line [ [] ↦ [] | c ∷ cs ↦ (c ∷ cs) ∷ [] ]
splitlines_from line after_cr (c ∷ s) =
    let plain = splitlines_from (line ++ c ∷ []) false s in
    let broken = line ∷ splitlines_from [] (c == 13) s in
    let joined = splitlines_from [] false s in
    if c == 10 && after_cr then joined else if c == 10 || c == 13 then broken else plain

unfoldable pub splitlines : Bytes → List Bytes
unfolding splitlines_from
splitlines = splitlines_from [] false

-- `content[start:stop]`
unfoldable pub slice : ℕ → ℕ → Bytes → Bytes
slice start stop content = take (stop - start) (drop start content)

-- `str.isspace` of one code point
unfoldable pub is_str_space : ℕ → Bool
is_str_space c =
    leb 9 c && leb c 13
    || (leb 28 c && leb c 32
        || (c == 0x85
            || (c == 0xA0
                || (c == 0x1680
                    || (leb 0x2000 c && leb c 0x200A
                        || (c == 0x2028
                            || (c == 0x2029 || (c == 0x202F || (c == 0x205F || c == 0x3000)))))))))

unfoldable pub str_lstrip : Bytes → Bytes
str_lstrip [] = []
str_lstrip (c ∷ s) = let rest = str_lstrip s in if is_str_space c then rest else c ∷ s

-- `str.strip`
unfoldable pub str_strip : Bytes → Bytes
unfolding str_lstrip
str_strip s = reverse (str_lstrip (reverse (str_lstrip s)))
