-- ===== src/Extract/Patterns.antt =====
-- What the patterns of the extractors share (backend/engine/extract). `spaces` and `ascii_spaces`
-- are `\s*` of a text and of bytes.
pub mod Loops
pub mod Literals
pub mod Frames
use sih.Prelude.{ℕ, Bool, ◌||◌, List, [], ◌∷◌, leb, ◌&&◌, ◌==◌}
use sih.Prelude.Text.{codes}
use sih.Prelude.Bytes.{is_space, is_str_space}
use sih.Prelude.Regex.{
  Regex, one, alt, star, lazy, boundary, open_group, close_group, is_word, literal, any_case, ◌⨾◌,
  alts, opt, plus, times, up_to, is_digit, is_hex, is_base64, one_of, none_of,
}

abbrev pub spaces : Regex
spaces = star (one is_str_space)

abbrev pub ascii_spaces : Regex
ascii_spaces = star (one is_space)

abbrev pub word : Regex
word = plus (one is_word)

abbrev pub digits : Regex
digits = plus (one is_digit)

abbrev pub text : List ℕ → Regex
text = literal

abbrev pub word_or_bracket : ℕ → Bool
word_or_bracket c = is_word c || one_of (codes "()") c
