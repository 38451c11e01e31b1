-- ===== src/Extract/Framing/Scan.antt =====
-- The scan for DER sequences reads only bytes of the artifact, and ends.
use sih.Prelude.{
  ℕ, zero, suc, ◌+◌, ◌-◌, ◌*◌, ◌≤◌, ◌<◌, ◌≡◌, ◌⊎◌, refl, ◌||◌, some, String, List, [], ◌∷◌, any,
  All, All-append, length, ltb, ◌==◌, arith, Bool-cases, inl, inr, if◌then◌else◌,
}
use sih.Prelude.Bytes.{Bytes}
use sih.Attribution.{Span}
use sih.Extract.{is_covered, IsSpanOf}
use sih.Extract.Framing.{
  Der, no_sequence, index_error, sequence, asn1_tags, read_byte, validate_content, validate_length,
  validate_der, add_der, der_sequences,
}

-- A result that is no IndexError; a sequence has at least 34 bytes and lies in the artifact.
abbrev pub IsInside : Bytes → ℕ → Der → Type 0
IsInside content offset no_sequence = Unit
IsInside content offset index_error = ⊥
IsInside content offset (sequence len) = (34 ≤ len) × (offset + len ≤ length content)

read_byte-IsInside :
    (content : Bytes) (offset i : ℕ) (use_byte : ℕ → Der)
    → i < length content
    → ((b : ℕ) → IsInside content offset (use_byte b))
    → IsInside content offset (read_byte content i use_byte)
read_byte-IsInside content offset i use_byte lt h = go content i lt
  where
    go : (s : Bytes) (k : ℕ) → k < length s → IsInside content offset (read_byte s k use_byte)
    go [] k l = absurd (omega arith)
    go (b ∷ s) zero l = h b
    go (b ∷ s) (suc k) l = go s k (omega arith)

validate_content-IsInside :
    (content : Bytes) (offset len header_len : ℕ)
    → 2 ≤ header_len
    → IsInside content offset (validate_content content offset len header_len)
unfolding validate_content
validate_content-IsInside content offset len header_len h =
    elim (Bool-cases (ltb len 32 || ltb (length content) (offset + (header_len + len)))) [
      | inl bad ↦ rw bad tt
      | inr good ↦
          let long : 32 ≤ len = ground (arith, good) in
          let fits : offset + (header_len + len) ≤ length content = ground (arith, good) in
          rw good (
            read_byte-IsInside content offset (offset + header_len) _ (omega arith)
              (tagged long fits))
    ]
  where
    tagged :
        32 ≤ len
        → offset + (header_len + len) ≤ length content
        → (tag : ℕ)
        → IsInside content offset
            (if any (◌==◌ tag) asn1_tags then sequence (header_len + len) else no_sequence)
    tagged long fits tag = elim (Bool-cases (any (◌==◌ tag) asn1_tags)) [
      | inl e ↦ rw e (omega arith, omega arith)
      | inr e ↦ rw e tt
    ]

validate_length-IsInside :
    (content : Bytes) (offset len_byte : ℕ)
    → offset + 4 ≤ length content
    → IsInside content offset (validate_length content offset len_byte)
unfolding validate_length
validate_length-IsInside content offset len_byte h = elim (Bool-cases (ltb len_byte 0x80)) [
  | inl short ↦ rw short (validate_content-IsInside content offset len_byte 2 (omega arith))
  | inr long ↦ elim (Bool-cases (len_byte == 0x81)) [
    | inl one_byte ↦
        rw (long, one_byte)
          (read_byte-IsInside content offset (offset + 2) _ (omega arith)
            (λ b. validate_content-IsInside content offset b 3 (omega arith)))
    | inr other ↦ elim (Bool-cases (len_byte == 0x82)) [
      | inl two_bytes ↦
          rw (long, other, two_bytes)
            (read_byte-IsInside content offset (offset + 2) _ (omega arith) (λ hi.
              read_byte-IsInside content offset (offset + 3) _ (omega arith)
                (λ lo. validate_content-IsInside content offset (hi * 256 + lo) 4 (omega arith))))
      | inr more ↦ rw (long, other, more) tt
    ]
  ]
]

-- The check reads no byte beyond the end, and the length that it gives is that of a sequence of at
-- least 34 bytes within the artifact.
pub validate_der-IsInside :
    (content : Bytes) (offset : ℕ) → IsInside content offset (validate_der content offset)
unfolding validate_der
validate_der-IsInside content offset = elim (Bool-cases (ltb (length content) (offset + 4))) [
  | inl short ↦ rw short tt
  | inr room ↦
      let h : offset + 4 ≤ length content = ground (arith, room) in
      rw room (read_byte-IsInside content offset offset _ (omega arith) (tagged h))
]
  where
    tagged :
        offset + 4 ≤ length content
        → (tag : ℕ)
        → IsInside content offset (
            if tag == 0x30
            then read_byte content (offset + 1) (validate_length content offset)
            else no_sequence)
    tagged h tag = elim (Bool-cases (tag == 0x30)) [
      | inl e ↦ rw e (
          read_byte-IsInside content offset (offset + 1) _ (omega arith)
            (λ b. validate_length-IsInside content offset b h))
      | inr e ↦ rw e tt
    ]

Der-cases :
    (content : Bytes) (offset : ℕ) (d : Der)
    → IsInside content offset d
    → (d ≡ no_sequence)
      ⊎ ((len : ℕ) × ((d ≡ sequence len) × (34 ≤ len) × (offset + len ≤ length content)))
Der-cases content offset no_sequence h = inl refl
Der-cases content offset index_error h = absurd h
Der-cases content offset (sequence len) (a, b) = inr (len, (refl, a, b))

module _ (source : Bytes) (artifact_hash : String) where
  add_der-IsSpanOf :
      (i len : ℕ) (spans : List Span)
      → i + len ≤ length source
      → All (IsSpanOf artifact_hash (length source)) spans
      → All (IsSpanOf artifact_hash (length source)) (add_der artifact_hash i len spans)
  add_der-IsSpanOf i len spans h a = elim (Bool-cases (is_covered spans i (i + len))) [
    | inl e ↦ rw e a
    | inr e ↦
        rw e (
          All-append (IsSpanOf artifact_hash (length source)) spans _ a
            ((refl, omega arith, h), tt))
  ]

  pub der_sequences-ends :
      (fuel i : ℕ) (spans : List Span)
      → length source - i < fuel
      → All (IsSpanOf artifact_hash (length source)) spans
      → (after : List Span) × (der_sequences fuel i source artifact_hash spans ≡ some after)
        × All (IsSpanOf artifact_hash (length source)) after
  unfolding der_sequences
  der_sequences-ends zero i spans h a = absurd (omega arith)
  der_sequences-ends (suc fuel) i spans h a = elim (Bool-cases (ltb (i + 32) (length source))) [
    | inr end ↦ (spans, rw (end, der_sequences) refl, a)
    | inl more ↦
        let inside = validate_der-IsInside source i in
        let lt : i < length source = ground (arith, more) in
        elim (Der-cases source i (validate_der source i) inside) [
          | inl nothing ↦
              let (after, e, b) = der_sequences-ends fuel (i + 1) spans (omega arith) a in
              (after, rw (more, nothing, der_sequences) e, b)
          | inr (len, (found, long, fits)) ↦
              let (after, e, b) =
                der_sequences-ends fuel (i + len) (add_der artifact_hash i len spans) (omega arith)
                  (add_der-IsSpanOf i len spans fits a) in
              (after, rw (more, found, der_sequences) e, b)
        ]
  ]
