-- ===== src/Extract/Tables.antt =====
-- Tables of constants (backend/engine/extract/tables.py). The loops run on fuel; `none` means that
-- it ran out.
pub mod Bijections
pub mod Words
use Prim.Native.Nat.{bit_and, bit_xor}
use sih.Prelude.{
  ℕ, zero, suc, ◌+◌, ◌-◌, ◌*◌, ◌/◌, ◌%◌, ◌^◌, min, max, Bool, true, false, not, ◌&&◌, ◌||◌, Option,
  none, some, String, List, [], ◌∷◌, ◌++◌, map, keep, any, all, sum_by, length, ltb, leb, take,
  drop, ◌==◌, if◌then◌else◌,
}
use sih.Prelude.Text.{codes}
use sih.Prelude.Bytes.{Bytes, slice, starts_with}
use sih.Prelude.Number.{parse_int}
use sih.Prelude.Int.{ℤ, pos}
use sih.Prelude.Regex.{
  Regex, Match, one, seq, alt, boundary, finditer, literal, plus, times, up_to, one_of, none_of,
  is_hex, is_digit, ◌⨾◌,
}
use sih.Attribution.{Span, byte, ast}
use sih.Extract.{span_of, distinct, ends_with}

-- `len(set(window)) == 256`, for a window of 256 bytes
unfoldable pub is_bijection : Bytes → Bool
unfolding distinct
is_bijection window = length (distinct window) == 256

-- `while i <= n - 256:`, where n >= 256.
unfoldable pub bijections : ℕ → ℕ → Bytes → String → Option (List Span)
bijections zero i source artifact_hash = none
bijections (suc fuel) i source artifact_hash =
    if leb i (length source - 256)
    then elim (is_bijection (slice i (i + 256) source)) [
      | true ↦ elim (bijections fuel (i + 256) source artifact_hash) [
        | none ↦ none
        | some spans ↦ some (
            span_of artifact_hash byte i (i + 256) "extract.tables.bijection_256"
              "table.bijection_256"
            ∷ spans)
      ]
      | false ↦ bijections fuel (i + 1) source artifact_hash
    ]
    else some []

-- `bin(x).count("1")` of a word of 32 bits, by its bits from the lowest on.
unfoldable pub popcount_from : ℕ → ℕ → ℕ
popcount_from zero x = 0
popcount_from (suc bits) x = x % 2 + popcount_from bits (x / 2)

unfoldable pub popcount : ℕ → ℕ
unfolding popcount_from
popcount x = popcount_from 32 x

-- The sum of the distances of neighbours.
unfoldable pub total_distance : List ℕ → ℕ
unfolding popcount
total_distance [] = 0
total_distance (w ∷ []) = 0
total_distance (w ∷ v ∷ ws) = popcount (bit_xor w v) + total_distance (v ∷ ws)

-- `_pairwise_hamming_distance(words) >= bound`; it is 0 for fewer than two words.
unfoldable pub has_distance : ℕ → List ℕ → Bool
has_distance bound words =
    if ltb (length words) 2
    then bound == 0
    else leb (bound * (length words - 1)) (total_distance words)

-- `struct.unpack("<I", …)` of each four bytes
unfoldable pub words_le : Bytes → List ℕ
words_le (a ∷ b ∷ c ∷ d ∷ s) = (a + 256 * (b + 256 * (c + 256 * d))) ∷ words_le s
words_le _ = []

-- The five tests of a window of eight words.
unfoldable pub is_candidate : List ℕ → Bool
unfolding distinct
is_candidate ws =
    leb 5 (length (keep (λ w. not (bit_and w 0x80808080 == 0)) ws))
    && (leb 2 (length (keep (λ w. not (bit_and w 0x80000000 == 0)) ws))
        && (length (distinct ws) == 8 && (all (leb 0x100) ws && has_distance 12 ws)))

-- `while end_k < len(words_le):` from a table `words[k:end_k]` on, over the words behind it.
unfoldable pub extend_table : List ℕ → ℕ → List ℕ → ℕ
extend_table found end_k [] = end_k
extend_table found end_k (w ∷ ws) =
    let further = extend_table (found ++ w ∷ []) (suc end_k) ws in
    if any (◌==◌ w) found || ltb w 0x100
    then end_k
    else if has_distance 11 (found ++ w ∷ [])
    then further
    else end_k

-- `max(s.start, start) < min(s.end, end)` for no span
abbrev pub is_free : List Span → ℕ → ℕ → Bool
is_free spans start stop = not (any (λ s. ltb (max s.start start) (min s.stop stop)) spans)

abbrev add_table : String → ℕ → ℕ → List Span → List Span
add_table artifact_hash start stop spans =
    if is_free spans start stop
    then spans
      ++ span_of artifact_hash byte start stop "extract.tables.constant_words"
          "table.constant_words"
        ∷ []
    else spans

-- `while k <= len(words_le) - 8:` at one alignment; `rest` is `words_le[k:]`.
unfoldable pub constant_words : ℕ → ℕ → ℕ → List ℕ → String → List Span → Option (List Span)
constant_words zero align k rest artifact_hash spans = none
constant_words (suc fuel) align k rest artifact_hash spans =
    if leb 8 (length rest)
    then elim (is_candidate (take 8 rest)) [
      | true ↦
          let end_k = extend_table (take 8 rest) (k + 8) (drop 8 rest) in
          constant_words fuel align end_k (drop (end_k - k) rest) artifact_hash
            (add_table artifact_hash (align + k * 4) (align + end_k * 4) spans)
      | false ↦ constant_words fuel align (k + 1) (drop 1 rest) artifact_hash spans
    ]
    else some spans

-- `for align in (0, 1, 2, 3):`, from one alignment on; there is fuel for each word.
unfoldable pub scan_alignments : ℕ → ℕ → Bytes → String → List Span → Option (List Span)
scan_alignments zero align source artifact_hash spans = some spans
scan_alignments (suc rounds) align source artifact_hash spans =
    elim (constant_words (suc (length source)) align 0 (words_le (drop align source)) artifact_hash
      spans) [
        | none ↦ none
        | some found ↦ scan_alignments rounds (align + 1) source artifact_hash found
      ]

-- `\[([^\]]{500,4000})\]|\{([^}]{500,4000})\}`
unfoldable pub bracket_pattern : Regex
bracket_pattern =
    alt
      (literal (codes "[")
        ⨾ times 500 (one (none_of (codes "]")))
        ⨾ up_to 3500 (one (none_of (codes "]")))
        ⨾ literal (codes "]"))
      (literal (codes "{")
        ⨾ times 500 (one (none_of (codes "}")))
        ⨾ up_to 3500 (one (none_of (codes "}")))
        ⨾ literal (codes "}"))

-- `0x[0-9a-fA-F]+|\b\d+\b`
unfoldable pub number_pattern : Regex
number_pattern =
    alt (literal (codes "0x") ⨾ plus (one is_hex)) (boundary ⨾ plus (one is_digit) ⨾ boundary)

-- The numbers in a text; a text that is no number is passed over.
unfoldable pub numbers_of : Bytes → List ℤ → List Match → List ℤ
numbers_of text numbers [] = numbers
numbers_of text numbers (m ∷ ms) =
    let num_str = slice m.start m.stop text in
    let base : ℕ = if starts_with (codes "0x") num_str then 16 else 10 in
    numbers_of text (elim (parse_int base num_str) [ none ↦ numbers | some n ↦ numbers ++ n ∷ [] ])
      ms

abbrev to_natural : ℤ → ℕ
to_natural (pos n) = n
to_natural _ = 0

-- 256 different numbers from 0 to 255; none is negative, since the pattern has no sign.
unfoldable pub is_byte_table : List ℤ → Bool
unfolding distinct
is_byte_table numbers =
    let ns = map to_natural numbers in
    length ns == 256
    && (length (distinct ns) == 256
        && (any (◌==◌ 0) ns && (any (◌==◌ 255) ns && all (λ x. leb x 255) ns)))

unfoldable pub source_tables : Bytes → String → List Span
unfolding bracket_pattern number_pattern numbers_of is_byte_table
source_tables text artifact_hash =
    map
      (λ m.
        span_of artifact_hash ast m.start m.stop "extract.tables.bijection_256"
          "table.bijection_256")
      (keep
        (λ m. is_byte_table (
          numbers_of (slice m.start m.stop text) []
            (finditer number_pattern (slice m.start m.stop text))))
        (finditer bracket_pattern text))

abbrev pub table_suffixes : List Bytes
table_suffixes =
    codes ".py" ∷ codes ".c" ∷ codes ".h" ∷ codes ".cpp" ∷ codes ".java" ∷ codes ".go" ∷ []

-- The two scans of the bytes.
unfoldable pub byte_tables : Bytes → String → Option (List Span)
byte_tables source artifact_hash =
    elim (if ltb (length source) 256
      then some []
      else bijections (suc (length source)) 0 source artifact_hash) [
        | none ↦ none
        | some found ↦
            if ltb (length source) 32
            then some found
            else scan_alignments 4 0 source artifact_hash found
      ]

unfoldable pub extract_tables : Bytes → Bytes → String → Option (List Span)
extract_tables source path artifact_hash = elim (byte_tables source artifact_hash) [
  | none ↦ none
  | some spans ↦
      some (
        if ends_with table_suffixes path
        then spans ++ source_tables source artifact_hash
        else spans)
]
