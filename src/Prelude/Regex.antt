-- ===== src/Prelude/Regex.antt =====
-- Python's `re`, as far as the program's patterns use it: what a pattern matches at a position, the
-- preferred match first, and `finditer`. No pattern of the program matches the empty text.
pub mod Order
use sih.Prelude.{
  ℕ, zero, suc, ◌+◌, ◌≤◌, ◌≡◌, refl, Bool, true, false, not, ◌&&◌, ◌||◌, Option, none, some, List,
  [], ◌∷◌, ◌++◌, arith, length, ltb, leb, ◌==◌, if◌then◌else◌, All, All-append, any, keep, inl, inr,
  subst, ap,
}
use sih.Prelude.Bytes.{Bytes}
use sih.Prelude.Keep.{All-keep, List-cases}

pub data Regex : Type 0 where
  empty : Regex
  one : (ℕ → Bool) → Regex
  seq alt : Regex → Regex → Regex
  -- `r*` and `r*?`
  star lazy : Regex → Regex
  -- `\b`
  boundary : Regex
  -- The ends of the one group that a pattern captures.
  open_group close_group : Regex

-- A position in a text: what stands before it and after it, and the group captured so far.
pub record Cursor : Type 0 where
  pub position : ℕ
  pub before : Option ℕ
  pub rest : Bytes
  pub group_start : ℕ
  pub group_stop : ℕ

-- `\w` of a text decoded from Latin-1, and of ASCII bytes.
unfoldable pub is_word : ℕ → Bool
is_word c =
    leb b'0' c && leb c b'9'
    || leb b'A' c && leb c b'Z'
    || leb b'a' c && leb c b'z'
    || c == b'_'
    || c == 0xAA
    || c == 0xB2
    || c == 0xB3
    || c == 0xB5
    || c == 0xB9
    || c == 0xBA
    || leb 0xBC c && leb c 0xBE
    || leb 0xC0 c && leb c 0xD6
    || leb 0xD8 c && leb c 0xF6
    || leb 0xF8 c && leb c 0xFF

is_word_at : Option ℕ → Bool
unfolding is_word
is_word_at none = false
is_word_at (some c) = is_word c

first : Bytes → Option ℕ
first [] = none
first (c ∷ s) = some c

differ : Bool → Bool → Bool
differ true b = not b
differ false b = b

step_one : (ℕ → Bool) → Cursor → Bytes → List Cursor
step_one p s [] = []
step_one p s (c ∷ rest) =
    if p c then record s { position = suc s.position; before = some c; rest = rest } ∷ [] else []

concat_map {ℓ κ} : {A : Type ℓ} {B : Type κ} → (A → List B) → List A → List B
concat_map f [] = []
concat_map f (x ∷ xs) = f x ++ concat_map f xs

abbrev is_past : Cursor → Cursor → Bool
is_past s m = ltb (length m.rest) (length s.rest)

-- Repetitions that each take a character; there are no more of them than characters.
star_from : (Cursor → List Cursor) → ℕ → Cursor → List Cursor
unfolding concat_map
star_from m zero s = s ∷ []
star_from m (suc n) s = concat_map (star_from m n) (keep (is_past s) (m s)) ++ s ∷ []

lazy_from : (Cursor → List Cursor) → ℕ → Cursor → List Cursor
unfolding concat_map
lazy_from m zero s = s ∷ []
lazy_from m (suc n) s = s ∷ concat_map (lazy_from m n) (keep (is_past s) (m s))

-- Where a pattern can end that starts at a position, the preferred end first.
unfoldable pub matches : Regex → Cursor → List Cursor
unfolding step_one concat_map star_from lazy_from differ first is_word_at
matches empty s = s ∷ []
matches (one p) s = step_one p s s.rest
matches (seq a b) s = concat_map (matches b) (matches a s)
matches (alt a b) s = matches a s ++ matches b s
matches (star a) s = star_from (matches a) (length s.rest) s
matches (lazy a) s = lazy_from (matches a) (length s.rest) s
matches boundary s = if differ (is_word_at s.before) (is_word_at (first s.rest)) then s ∷ [] else []
matches open_group s = record s { group_start = s.position } ∷ []
matches close_group s = record s { group_stop = s.position } ∷ []

pub record Match : Type 0 where
  pub start : ℕ
  pub stop : ℕ
  pub group_start : ℕ
  pub group_stop : ℕ

-- `finditer`, from a position on; each round takes at least one character.
unfoldable pub find_from : ℕ → Regex → Cursor → List Match
find_from zero r s = []
find_from (suc n) r s = elim (matches r s) [
  | m ∷ ms ↦
      record {
        start = s.position;
        stop = m.position;
        group_start = m.group_start;
        group_stop = m.group_stop;
      }
      ∷ find_from n r m
  | [] ↦ elim s.rest [
    | [] ↦ []
    | c ∷ rest ↦
        find_from n r (record s { position = suc s.position; before = some c; rest = rest })
  ]
]

abbrev pub text_start : Bytes → Cursor
text_start text = record {
  position = 0;
  before = none;
  rest = text;
  group_start = 0;
  group_stop = 0;
}

-- `pattern.finditer(text)`
unfoldable pub finditer : Regex → Bytes → List Match
unfolding find_from
finditer r text = find_from (suc (length text)) r (text_start text)

-- Text in a pattern, and the other ways to put patterns together.
abbrev pub literal : Bytes → Regex
literal [] = empty
literal (c ∷ []) = one (◌==◌ c)
literal (c ∷ d ∷ s) = seq (one (◌==◌ c)) (literal (d ∷ s))

-- Text under `re.IGNORECASE`, written in lower case.
abbrev pub same_letter : ℕ → ℕ → Bool
same_letter c d = c == (if leb b'A' d && leb d b'Z' then d + 32 else d)

abbrev pub any_case : Bytes → Regex
any_case [] = empty
any_case (c ∷ []) = one (same_letter c)
any_case (c ∷ d ∷ s) = seq (one (same_letter c)) (any_case (d ∷ s))

infixr 66 ◌⨾◌
abbrev pub ◌⨾◌ : Regex → Regex → Regex
a ⨾ b = seq a b

abbrev pub alts : Regex → List Regex → Regex
alts r [] = r
alts r (q ∷ rs) = alt r (alts q rs)

-- `r?`, `r+`, `r{n}`, and up to `n` more.
abbrev pub opt : Regex → Regex
opt r = alt r empty

abbrev pub plus : Regex → Regex
plus r = seq r (star r)

abbrev pub times : ℕ → Regex → Regex
times zero r = empty
times (suc n) r = seq r (times n r)

abbrev pub up_to : ℕ → Regex → Regex
up_to zero r = empty
up_to (suc n) r = alt (seq r (up_to n r)) empty

-- Classes of characters: `\d`, `[0-9a-fA-F]`, `[A-Za-z0-9+/]`.
abbrev pub is_digit : ℕ → Bool
is_digit c = leb b'0' c && leb c b'9'

abbrev pub is_hex : ℕ → Bool
is_hex c = is_digit c || leb b'a' c && leb c b'f' || leb b'A' c && leb c b'F'

abbrev pub is_base64 : ℕ → Bool
is_base64 c =
    leb b'A' c && leb c b'Z' || leb b'a' c && leb c b'z' || is_digit c || c == b'+' || c == b'/'

abbrev pub one_of : Bytes → ℕ → Bool
one_of cs c = any (◌==◌ c) cs

abbrev pub none_of : Bytes → ℕ → Bool
none_of cs c = not (any (◌==◌ c) cs)
