-- ===== src/Extract/Patterns/Literals.antt =====
-- The patterns of backend/engine/extract/literals.py.
use sih.Prelude.{ℕ, List, [], ◌∷◌, ◌==◌}
use sih.Prelude.Text.{codes}
use sih.Prelude.Regex.{
  Regex, one, alt, star, lazy, boundary, open_group, close_group, any_case, ◌⨾◌, alts, opt, plus,
  times, is_hex, one_of, none_of,
}
use sih.Extract.Patterns.{spaces, digits, text}

abbrev key_lengths : Regex
key_lengths = alts (text (codes "256")) (
    text (codes "512")
    ∷ text (codes "1024")
    ∷ text (codes "2048")
    ∷ text (codes "3072")
    ∷ text (codes "4096")
    ∷ text (codes "8192")
    ∷ [])

-- `_KEY_LENGTH_RE`
unfoldable pub key_length : Regex
key_length =
    alt
      (boundary
        ⨾ alts (any_case (codes "key") ⨾ opt (text (codes "_")) ⨾ any_case (codes "size")) (
            any_case (codes "bits")
            ∷ (any_case (codes "key") ⨾ opt (text (codes "_")) ⨾ any_case (codes "len"))
            ∷ (any_case (codes "modulus") ⨾ opt (text (codes "_")) ⨾ any_case (codes "size"))
            ∷ [])
        ⨾ spaces
        ⨾ one (one_of (codes ":="))
        ⨾ spaces
        ⨾ key_lengths
        ⨾ boundary)
      (boundary
        ⨾ alts (any_case (codes "generate_key")) (
            any_case (codes "make_key")
            ∷ any_case (codes "new_key")
            ∷ any_case (codes "genkey")
            ∷ [])
        ⨾ spaces
        ⨾ text (codes "(")
        ⨾ lazy (one (none_of (codes ")")))
        ⨾ boundary
        ⨾ key_lengths
        ⨾ boundary)

abbrev number : Regex
number = alt (text (codes "0x") ⨾ plus (one is_hex)) digits

abbrev number_comma : Regex
number_comma = number ⨾ spaces ⨾ text (codes ",") ⨾ spaces

abbrev numbers_between : List ℕ → List ℕ → Regex
numbers_between open_text close_text =
    text open_text
    ⨾ spaces
    ⨾ times 7 number_comma
    ⨾ star number_comma
    ⨾ number
    ⨾ spaces
    ⨾ text close_text

-- `_ARRAY_LITERAL_RE`
unfoldable pub array_literal : Regex
array_literal =
    alt (numbers_between (codes "[") (codes "]")) (numbers_between (codes "{") (codes "}"))

abbrev quoted : ℕ → Regex
quoted quote =
    one (◌==◌ quote)
    ⨾ open_group
    ⨾ star (one (none_of (quote ∷ codes "\\")))
    ⨾ star
        (text (codes "\\") ⨾ one (none_of (codes "\n")) ⨾ star (one (none_of (quote ∷ codes "\\"))))
    ⨾ close_group
    ⨾ one (◌==◌ quote)

-- `_STRING_LITERAL_RE`; the group is the one of its two that took part.
unfoldable pub string_literal : Regex
string_literal = alt (quoted b'"') (quoted b'\'')
