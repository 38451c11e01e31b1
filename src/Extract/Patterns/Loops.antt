-- ===== src/Extract/Patterns/Loops.antt =====
-- The patterns of arx.py and bigint.py in backend/engine/extract.
use sih.Prelude.{[], ◌∷◌}
use sih.Prelude.Text.{codes}
use sih.Prelude.Bytes.{is_str_space}
use sih.Prelude.Regex.{Regex, one, alt, star, lazy, any_case, ◌⨾◌, alts, opt, plus, none_of}
use sih.Extract.Patterns.{spaces, word, digits, text, word_or_bracket}

-- `_ARX_ROTATE_RE`
unfoldable pub arx_rotate : Regex
arx_rotate =
    alt
      (opt (text (codes "("))
        ⨾ spaces
        ⨾ word
        ⨾ spaces
        ⨾ text (codes "<<")
        ⨾ spaces
        ⨾ digits
        ⨾ spaces
        ⨾ opt (text (codes ")"))
        ⨾ spaces
        ⨾ text (codes "|")
        ⨾ spaces
        ⨾ opt (text (codes "("))
        ⨾ spaces
        ⨾ word
        ⨾ spaces
        ⨾ text (codes ">>")
        ⨾ spaces
        ⨾ opt (text (codes "("))
        ⨾ alts (text (codes "32")) (text (codes "64") ∷ digits ∷ [])
        ⨾ spaces
        ⨾ opt (text (codes "-") ⨾ spaces ⨾ digits)
        ⨾ opt (text (codes ")"))
        ⨾ spaces
        ⨾ opt (text (codes ")")))
      (alts (any_case (codes "rotate_left")) (
          any_case (codes "rotateleft")
          ∷ any_case (codes "rotateleft")
          ∷ any_case (codes "rotl")
          ∷ any_case (codes "rotr")
          ∷ [])
        ⨾ spaces
        ⨾ text (codes "(")
        ⨾ plus (one (none_of (codes ")")))
        ⨾ text (codes ")"))

abbrev bracketed_or_word : Regex
bracketed_or_word =
    alt (text (codes "(") ⨾ plus (one (none_of (codes ")"))) ⨾ text (codes ")"))
      (plus (one word_or_bracket))

-- `_ARX_EXPR_RE`
unfoldable pub arx_expr : Regex
arx_expr = alt (bracketed_or_word ⨾ spaces ⨾ text (codes "^") ⨾ spaces ⨾ bracketed_or_word) (
    plus (one word_or_bracket)
    ⨾ spaces
    ⨾ text (codes "^")
    ⨾ spaces
    ⨾ plus (one word_or_bracket)
    ⨾ spaces
    ⨾ alts (text (codes "+")) (text (codes "^") ∷ text (codes "<<") ∷ text (codes ">>") ∷ [])
    ⨾ spaces
    ⨾ plus (one word_or_bracket))

abbrev indented_lines : Regex
indented_lines =
    lazy (plus (one is_str_space) ⨾ plus (one (none_of (codes "\n"))) ⨾ text (codes "\n"))

abbrev in_line : Regex
in_line = star (one (none_of (codes "\n")))

abbrev in_block : Regex
in_block = star (one (none_of (codes "}")))

-- `_MODEXP_LOOP_RE`
unfoldable pub modexp_loop : Regex
modexp_loop =
    alt
      (alt (text (codes "for")) (text (codes "while"))
        ⨾ spaces
        ⨾ text (codes "(")
        ⨾ star (one (none_of (codes ")")))
        ⨾ text (codes ")")
        ⨾ spaces
        ⨾ text (codes "{")
        ⨾ in_block
        ⨾ alts (text (codes ">>=") ⨾ spaces ⨾ text (codes "1")) (
            (text (codes ">>") ⨾ spaces ⨾ text (codes "1"))
            ∷ (text (codes "/") ⨾ spaces ⨾ text (codes "2"))
            ∷ (text (codes "%=") ⨾ spaces)
            ∷ (text (codes "%") ⨾ spaces ⨾ word)
            ∷ [])
        ⨾ in_block
        ⨾ alt (text (codes "*") ⨾ spaces ⨾ text (codes "=")) (text (codes "mul"))
        ⨾ in_block
        ⨾ text (codes "}"))
      (text (codes "while")
        ⨾ plus (one is_str_space)
        ⨾ plus (one (none_of (codes "\n:")))
        ⨾ text (codes ":")
        ⨾ spaces
        ⨾ text (codes "\n")
        ⨾ indented_lines
        ⨾ (plus (one is_str_space)
            ⨾ in_line
            ⨾ alt (text (codes ">>=") ⨾ spaces ⨾ text (codes "1"))
                (text (codes "//=") ⨾ spaces ⨾ text (codes "2"))
            ⨾ in_line
            ⨾ text (codes "\n"))
        ⨾ indented_lines
        ⨾ (plus (one is_str_space)
            ⨾ in_line
            ⨾ alt (text (codes "%") ⨾ spaces ⨾ word) (text (codes "*=") ⨾ spaces)
            ⨾ in_line
            ⨾ text (codes "\n")))

-- `_MONTGOMERY_RE`
unfoldable pub montgomery : Regex
montgomery =
    alts
      (any_case (codes "montgomery_")
        ⨾ alts (any_case (codes "reduce")) (any_case (codes "mul") ∷ any_case (codes "exp") ∷ []))
      ((any_case (codes "mod") ⨾ opt (text (codes "_")) ⨾ any_case (codes "exp"))
        ∷ any_case (codes "pow_mod")
        ∷ any_case (codes "modpow")
        ∷ [])
    ⨾ spaces
    ⨾ text (codes "(")
