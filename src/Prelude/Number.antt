-- ===== src/Prelude/Number.antt =====
-- Python's `int(text, base)` of a byte string, and slices by integers.
use sih.Prelude.{
  ℕ, zero, suc, ◌+◌, ◌-◌, ◌*◌, Bool, true, false, ◌&&◌, ◌||◌, Option, none, some, [], ◌∷◌, ◌==◌,
  leb, ltb, length, take, drop, min, all, if◌then◌else◌,
}
use mathlib.Core.Option
use sih.Prelude.Int.{ℤ, pos, negsuc}
use sih.Prelude.Bytes.{Bytes, is_space}

-- The digit that a character is, in a base up to 16.
unfoldable pub digit_of : ℕ → ℕ → Option ℕ
digit_of base c =
    let d : ℕ =
      if leb b'0' c && leb c b'9'
      then c - b'0'
      else if leb b'a' c && leb c b'z'
      then c - b'a' + 10
      else if leb b'A' c && leb c b'Z'
      then c - b'A' + 10
      else base in
    if ltb d base then some d else none

-- The digits after the prefix. A single `_` may stand between two digits, and white space at the
-- end; `digit` says whether the last character was a digit.
unfoldable pub read_digits : ℕ → ℕ → Bool → Bytes → Option ℕ
read_digits base acc digit [] = if digit then some acc else none
read_digits base acc digit (c ∷ s) = elim (digit_of base c) [
  | some d ↦ read_digits base (acc * base + d) true s
  | none ↦
      let rest = read_digits base acc false s in
      if digit
      then if c == b'_' then rest else if all is_space (c ∷ s) then some acc else none
      else none
]

abbrev pub negate : ℕ → ℤ
negate zero = pos 0
negate (suc n) = negsuc n

abbrev skip_underscore : Bytes → Bytes
skip_underscore [] = []
skip_underscore (c ∷ s) = if c == b'_' then s else c ∷ s

-- A prefix `0x` or `0o`, after which one `_` may stand.
unfoldable pub skip_prefix : ℕ → Bytes → Bytes
skip_prefix base [] = []
skip_prefix base (c ∷ []) = c ∷ []
skip_prefix base (c ∷ d ∷ s) =
    if c == b'0'
      && (base == 16 && (d == b'x' || d == b'X') || base == 8 && (d == b'o' || d == b'O'))
    then skip_underscore s
    else c ∷ d ∷ s

unfoldable pub read_magnitude : ℕ → Bytes → Option ℕ
unfolding read_digits skip_prefix
read_magnitude base s = read_digits base 0 false (skip_prefix base s)

unfoldable pub read_signed : ℕ → Bytes → Option ℤ
unfolding read_magnitude
read_signed base [] = none
read_signed base (c ∷ s) =
    let minus = Option.map negate (read_magnitude base s) in
    let plus = Option.map pos (read_magnitude base s) in
    let plain = Option.map pos (read_magnitude base (c ∷ s)) in
    if c == b'-' then minus else if c == b'+' then plus else plain

-- `int(text, base)`; `none` is its ValueError.
unfoldable pub parse_int : ℕ → Bytes → Option ℤ
unfolding read_signed
parse_int base [] = none
parse_int base (c ∷ s) =
    let rest = parse_int base s in if is_space c then rest else read_signed base (c ∷ s)

-- Where an index of a slice stands in a sequence of `n` entries.
abbrev pub slice_position : ℕ → ℤ → ℕ
slice_position n (pos i) = min i n
slice_position n (negsuc i) = n - suc i

-- `content[start:stop]`, with indices of either sign.
unfoldable pub py_slice : ℤ → ℤ → Bytes → Bytes
py_slice start stop content =
    let from_start = slice_position (length content) start in
    take (slice_position (length content) stop - from_start) (drop from_start content)
