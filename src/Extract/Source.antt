-- ===== src/Extract/Source.antt =====
-- The extractors that read source text: arx.py, bigint.py and literals.py of
-- backend/engine/extract. A text is decoded from Latin-1, which gives each byte its code point.
use sih.Prelude.{
  ℕ, ◌+◌, ◌-◌, min, Bool, true, not, ◌&&◌, ◌||◌, String, List, [], ◌∷◌, ◌++◌, map, keep, length,
  leb, if◌then◌else◌,
}
use sih.Prelude.Text.{codes}
use sih.Prelude.Bytes.{Bytes, slice, contains, lower}
use sih.Prelude.Regex.{Match, finditer}
use sih.Attribution.{Span, ast}
use sih.Extract.{span_of, is_covered, ends_with, arx_binary, has_entropy}
use sih.Extract.Patterns.Loops.{arx_rotate, arx_expr, modexp_loop, montgomery}
use sih.Extract.Patterns.Literals.{key_length, array_literal, string_literal}

abbrev pub span_of_match : String → String → String → Match → Span
span_of_match artifact_hash rule signal m = span_of artifact_hash ast m.start m.stop rule signal

-- `for match in …:` with a test of the match, and none of the spans so far may hold it.
unfoldable pub add_uncovered :
    String → String → String → (Match → Bool) → List Match → List Span → List Span
add_uncovered artifact_hash rule signal test [] spans = spans
add_uncovered artifact_hash rule signal test (m ∷ ms) spans =
    add_uncovered artifact_hash rule signal test ms (
      if test m && not (is_covered spans m.start m.stop)
      then spans ++ span_of_match artifact_hash rule signal m ∷ []
      else spans)

abbrev all_matches : Match → Bool
all_matches m = true

-- A rotation counts with a xor or a sum within 40 characters.
unfoldable pub has_context : Bytes → Match → Bool
has_context text m =
    let ctx = slice (m.start - 40) (min (length text) (m.stop + 40)) text in
    contains (codes "^") ctx || contains (codes "+") ctx

unfoldable pub arx_source : Bytes → String → List Span
unfolding add_uncovered has_context
arx_source text artifact_hash =
    add_uncovered artifact_hash "extract.arx.source_composite" "arx.source_composite" all_matches
      (finditer arx_expr text)
      (map (span_of_match artifact_hash "extract.arx.source_rotate_xor" "arx.source_rotate_xor")
        (keep (has_context text) (finditer arx_rotate text)))

abbrev pub arx_suffixes : List Bytes
arx_suffixes =
    codes ".py"
    ∷ codes ".go"
    ∷ codes ".java"
    ∷ codes ".c"
    ∷ codes ".h"
    ∷ codes ".cpp"
    ∷ codes ".cc"
    ∷ codes ".rs"
    ∷ []

unfoldable pub extract_arx : Bytes → Bytes → String → List Span
extract_arx source path artifact_hash =
    if ends_with arx_suffixes path
    then arx_source source artifact_hash
    else arx_binary source artifact_hash

-- A loop that shifts, reduces and multiplies.
unfoldable pub is_modexp : Bytes → Bool
is_modexp block =
    (contains (codes ">>") block || (contains (codes "/=") block || contains (codes "//") block))
    && ((contains (codes "%") block || contains (codes "mod") (lower block))
        && (contains (codes "*") block || contains (codes "mul") (lower block)))

unfoldable pub extract_bigint : Bytes → String → List Span
unfolding add_uncovered is_modexp
extract_bigint text artifact_hash =
    add_uncovered artifact_hash "extract.bigint.montgomery_call" "bigint.montgomery_call"
      all_matches (finditer montgomery text)
      (map (span_of_match artifact_hash "extract.bigint.modexp_loop" "bigint.modexp_loop")
        (keep (λ m. is_modexp (slice m.start m.stop text)) (finditer modexp_loop text)))

abbrev pub literal_suffixes : List Bytes
literal_suffixes =
    codes ".py"
    ∷ codes ".go"
    ∷ codes ".java"
    ∷ codes ".c"
    ∷ codes ".h"
    ∷ codes ".cpp"
    ∷ codes ".cc"
    ∷ codes ".cxx"
    ∷ codes ".js"
    ∷ codes ".ts"
    ∷ codes ".rs"
    ∷ []

module _ (minus_log2 : ℕ → ℕ → ℕ) where
  -- A string of 32 characters or more with an entropy of 4.5 or more.
  unfoldable pub is_dense_string : Bytes → Match → Bool
  is_dense_string text m =
      let content = slice m.group_start m.group_stop text in
      leb 32 (length content) && has_entropy minus_log2 4500000 content

  unfoldable pub extract_literals : Bytes → Bytes → String → List Span
  unfolding add_uncovered is_dense_string
  extract_literals text path artifact_hash =
      if ends_with literal_suffixes path
      then add_uncovered artifact_hash "extract.literals.high_entropy_string"
          "literals.high_entropy_string" (is_dense_string text) (finditer string_literal text)
          (add_uncovered artifact_hash "extract.literals.numeric_array" "literals.numeric_array"
            all_matches (finditer array_literal text)
            (map (span_of_match artifact_hash "extract.literals.key_length" "literals.key_length")
              (finditer key_length text)))
      else []
