-- ===== src/Extract/Sound.antt =====
-- The extractors together: they end, read nothing beyond the artifact, and give spans of it.
use sih.Prelude.{
  ℕ, suc, ◌≤◌, ◌≡◌, refl, Bool, true, false, not, ◌&&◌, Option, some, String, List, [], ◌∷◌, ◌++◌,
  map, All, All-append, length, ltb, arith, Bool-cases, inl, inr, if◌then◌else◌,
}
use sih.Prelude.Bytes.{Bytes, slice}
use sih.Prelude.Keep.{All-keep, All-map}
use sih.Prelude.Sort.{sort_by, All-sort_by, IsChain, sort_by-IsChain}
use sih.Prelude.Regex.{Regex, Match, finditer}
use sih.Prelude.Regex.Order.{IsOrdered, finditer-IsOrdered}
use sih.Attribution.{Span, SpanKind, ast}
use sih.Extract.{IsSpanOf, span_of, is_covered, ends_with, extract_entropy, arx_binary}
use sih.Extract.Windows.{extract_entropy_lem, arx_binary_lem}
use sih.Extract.Tables.{extract_tables, source_tables, table_suffixes, bracket_pattern}
use sih.Extract.Tables.Words.{extract_tables_lem}
use sih.Extract.Source.{
  add_uncovered, arx_source, arx_suffixes, extract_arx, extract_bigint, extract_literals,
  literal_suffixes, has_context, is_modexp, is_dense_string,
}
use sih.Extract.Patterns.Frames.{structural_pem, structural_base64}
use sih.Extract.Patterns.Loops.{montgomery, modexp_loop, arx_expr, arx_rotate}
use sih.Extract.Patterns.Literals.{string_literal, array_literal, key_length}
use sih.Extract.Framing.{pem_envelopes, base64_blobs, extract_framing, is_payload}
use sih.Extract.Framing.Scan.{der_sequences-ends}
use sih.Extract.All.{span_before, extract_all}

-- The match lies in a text of `n` characters.
abbrev LiesIn : ℕ → Match → Type 0
LiesIn n m = (m.start ≤ m.stop) × (m.stop ≤ n)

IsOrdered-LiesIn : (lo n : ℕ) (ms : List Match) → IsOrdered lo n ms → All (LiesIn n) ms
IsOrdered-LiesIn lo n [] o = tt
IsOrdered-LiesIn lo n (m ∷ ms) (a, b, c, o) = ((b, c), IsOrdered-LiesIn m.stop n ms o)

finditer-LiesIn : (r : Regex) (text : Bytes) → All (LiesIn (length text)) (finditer r text)
finditer-LiesIn r text =
    IsOrdered-LiesIn 0 (length text) (finditer r text) (finditer-IsOrdered r text)

module _ (artifact_hash : String) (n : ℕ) where
  abbrev Sound : List Span → Type 0
  Sound = All (IsSpanOf artifact_hash n)

  map-Sound :
      (kind : SpanKind) (rule signal : String) (ms : List Match)
      → All (LiesIn n) ms
      → Sound (map (λ m. span_of artifact_hash kind m.start m.stop rule signal) ms)
  map-Sound kind rule signal [] a = tt
  map-Sound kind rule signal (m ∷ ms) ((b, c), a) =
      ((refl, omega arith, c), map-Sound kind rule signal ms a)

  add_uncovered-Sound :
      (rule signal : String) (test : Match → Bool) (ms : List Match) (spans : List Span)
      → All (LiesIn n) ms
      → Sound spans
      → Sound (add_uncovered artifact_hash rule signal test ms spans)
  unfolding add_uncovered
  add_uncovered-Sound rule signal test [] spans a s = s
  add_uncovered-Sound rule signal test (m ∷ ms) spans ((b, c), a) s =
      elim (Bool-cases (test m && not (is_covered spans m.start m.stop))) [
        | inl e ↦
            rw (e, add_uncovered)
              (add_uncovered-Sound rule signal test ms _ a
                (All-append (IsSpanOf artifact_hash n) spans _ s ((refl, omega arith, c), tt)))
        | inr e ↦ rw (e, add_uncovered) (add_uncovered-Sound rule signal test ms spans a s)
      ]

  module _ (b64decode : Bytes → Option Bytes) (source : Bytes) where
    pem_envelopes-Sound :
        (ms : List Match)
        → All (LiesIn n) ms
        → Sound (pem_envelopes b64decode source artifact_hash ms)
    unfolding pem_envelopes
    pem_envelopes-Sound [] a = tt
    pem_envelopes-Sound (m ∷ ms) ((b, c), a) =
        elim (Bool-cases (is_payload b64decode 24 (slice m.group_start m.group_stop source))) [
          | inl e ↦ rw (e, pem_envelopes) ((refl, omega arith, c), pem_envelopes-Sound ms a)
          | inr e ↦ rw (e, pem_envelopes) (pem_envelopes-Sound ms a)
        ]

    base64_blobs-Sound :
        (ms : List Match) (spans : List Span)
        → All (LiesIn n) ms
        → Sound spans
        → Sound (base64_blobs b64decode source artifact_hash ms spans)
    unfolding base64_blobs
    base64_blobs-Sound [] spans a s = s
    base64_blobs-Sound (m ∷ ms) spans ((b, c), a) s =
        elim (Bool-cases (
          not (is_covered spans m.start m.stop)
          && is_payload b64decode 48 (slice m.start m.stop source))) [
            | inl e ↦
                rw (e, base64_blobs)
                  (base64_blobs-Sound ms _ a
                    (All-append (IsSpanOf artifact_hash n) spans _ s ((refl, omega arith, c), tt)))
            | inr e ↦ rw (e, base64_blobs) (base64_blobs-Sound ms spans a s)
          ]

  if-Sound : (b : Bool) (xs ys : List Span) → Sound xs → Sound ys → Sound (if b then xs else ys)
  if-Sound true xs ys s t = s
  if-Sound false xs ys s t = t

span_total :
    (may_stand : String → String → Bool)
    → ((a b : String) → may_stand a b ≡ false → may_stand b a ≡ true)
    → (x y : Span) → span_before may_stand x y ≡ false
    → span_before may_stand y x ≡ true
unfolding span_before
span_total may_stand total x y h = ground (arith, h, total x.producing_rule y.producing_rule)

module _ (minus_log2 : ℕ → ℕ → ℕ) (b64decode : Bytes → Option Bytes) (source path : Bytes)
    (artifact_hash : String) where
  abbrev n : ℕ
  n = length source

  tables-Sound :
      (spans : List Span) × (extract_tables source path artifact_hash ≡ some spans)
      × Sound artifact_hash n spans
  unfolding source_tables
  tables-Sound =
      let (spans, e, disjoint, fits) = extract_tables_lem source path artifact_hash in
      let sound = All-map _ (IsSpanOf artifact_hash n) (λ s h. h.1) spans fits in
      (
        (if ends_with table_suffixes path
            then spans ++ source_tables source artifact_hash
            else spans),
        e,
        if-Sound artifact_hash n (ends_with table_suffixes path) _ _
            (All-append (IsSpanOf artifact_hash n) spans (source_tables source artifact_hash) sound
              (map-Sound artifact_hash n ast "extract.tables.bijection_256" "table.bijection_256" _
                (All-keep (LiesIn n) _ _ (finditer-LiesIn bracket_pattern source))))
            sound,
      )

  entropy-Sound : Sound artifact_hash n (extract_entropy minus_log2 source path artifact_hash)
  unfolding extract_entropy
  entropy-Sound = elim (Bool-cases (ltb (length source) 64)) [
    | inl short ↦ rw (short, extract_entropy) tt
    | inr long ↦
        All-map _ (IsSpanOf artifact_hash n) (λ s h. h.1) _
          (extract_entropy_lem minus_log2 source path artifact_hash (ground (arith, long))).2
  ]

  binary-Sound : Sound artifact_hash n (arx_binary source artifact_hash)
  unfolding arx_binary
  binary-Sound = elim (Bool-cases (ltb (length source) 64)) [
    | inl short ↦ rw (short, arx_binary) tt
    | inr long ↦
        All-map _ (IsSpanOf artifact_hash n) (λ s h. h.1) _
          (arx_binary_lem source artifact_hash (ground (arith, long))).2
  ]

  arx-Sound : Sound artifact_hash n (extract_arx source path artifact_hash)
  unfolding extract_arx arx_source
  arx-Sound =
      if-Sound artifact_hash n (ends_with arx_suffixes path) _ _
        (add_uncovered-Sound artifact_hash n "extract.arx.source_composite" "arx.source_composite"
          (λ m. true) _ _ (finditer-LiesIn arx_expr source)
          (map-Sound artifact_hash n ast "extract.arx.source_rotate_xor" "arx.source_rotate_xor" _
            (All-keep (LiesIn n) (has_context source) _ (finditer-LiesIn arx_rotate source))))
        binary-Sound

  bigint-Sound : Sound artifact_hash n (extract_bigint source artifact_hash)
  unfolding extract_bigint
  bigint-Sound =
      add_uncovered-Sound artifact_hash n "extract.bigint.montgomery_call" "bigint.montgomery_call"
        (λ m. true) _ _ (finditer-LiesIn montgomery source)
        (map-Sound artifact_hash n ast "extract.bigint.modexp_loop" "bigint.modexp_loop" _ (
          All-keep (LiesIn n) (λ m. is_modexp (slice m.start m.stop source)) _
            (finditer-LiesIn modexp_loop source)))

  literals-Sound : Sound artifact_hash n (extract_literals minus_log2 source path artifact_hash)
  unfolding extract_literals
  literals-Sound =
      if-Sound artifact_hash n (ends_with literal_suffixes path) _ []
        (add_uncovered-Sound artifact_hash n "extract.literals.high_entropy_string"
          "literals.high_entropy_string" (is_dense_string minus_log2 source) _ _
          (finditer-LiesIn string_literal source)
          (add_uncovered-Sound artifact_hash n "extract.literals.numeric_array"
            "literals.numeric_array" (λ m. true) _ _ (finditer-LiesIn array_literal source)
            (map-Sound artifact_hash n ast "extract.literals.key_length" "literals.key_length" _
              (finditer-LiesIn key_length source))))
        tt

  framing-Sound :
      (spans : List Span) × (extract_framing b64decode source artifact_hash ≡ some spans)
      × Sound artifact_hash n spans
  unfolding extract_framing
  framing-Sound = der_sequences-ends source artifact_hash (suc (length source)) 0 _ (omega arith) (
      base64_blobs-Sound artifact_hash n b64decode source _ _
        (finditer-LiesIn structural_base64 source)
        (pem_envelopes-Sound artifact_hash n b64decode source _
          (finditer-LiesIn structural_pem source)))

  -- With an order of the rules' names that is total, and for every artifact: the extractors end
  -- without an error; each span is of the artifact, lies in it, and has its length as its magnitude;
  -- and the spans are sorted by start, then end, then rule.
  pub extract_all_lem :
      (may_stand : String → String → Bool)
      → ((a b : String) → may_stand a b ≡ false → may_stand b a ≡ true)
      → (spans : List Span) × (extract_all minus_log2 b64decode may_stand source path artifact_hash
          ≡ some spans)
        × All (IsSpanOf artifact_hash (length source)) spans
        × IsChain (span_before may_stand) spans
  unfolding extract_all
  extract_all_lem may_stand total =
      let (tables, e, t) = tables-Sound in
      let (framed, f, u) = framing-Sound in
      let n = length source in
      let entropy = extract_entropy minus_log2 source path artifact_hash in
      let arx = extract_arx source path artifact_hash in
      let bigint = extract_bigint source artifact_hash in
      let literals = extract_literals minus_log2 source path artifact_hash in
      let P = IsSpanOf artifact_hash n in
      let found = tables ++ entropy ++ arx ++ bigint ++ framed ++ literals in
      let le = span_before may_stand in
      (
        sort_by le found,
        rw (e, f, extract_all) refl,
        All-sort_by P le found (
            All-append P (tables ++ entropy ++ arx ++ bigint ++ framed) literals
              (All-append P (tables ++ entropy ++ arx ++ bigint) framed
                (All-append P (tables ++ entropy ++ arx) bigint
                  (All-append P (tables ++ entropy) arx
                    (All-append P tables entropy t entropy-Sound) arx-Sound)
                  bigint-Sound)
                u)
              literals-Sound),
        sort_by-IsChain le (span_total may_stand total) found,
      )
