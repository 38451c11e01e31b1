-- ===== src/Extract/Framing.antt =====
-- Framed data: PEM, Base64 and DER (backend/engine/extract/framing.py). `b64decode` is
-- `base64.b64decode(payload, validate=True)`, and `none` its error.
pub mod Scan
use sih.Prelude.{
  ℕ, zero, suc, ◌+◌, ◌-◌, ◌*◌, ◌%◌, Bool, true, false, not, ◌&&◌, ◌||◌, Option, none, some, String,
  List, [], ◌∷◌, ◌++◌, keep, any, length, get_elem?, ltb, leb, ◌==◌, if◌then◌else◌,
}
use sih.Prelude.Bytes.{Bytes, slice, is_space}
use sih.Prelude.Regex.{Match, finditer}
use sih.Attribution.{Span, byte}
use sih.Extract.{span_of, is_covered}
use sih.Extract.Patterns.Frames.{structural_pem, structural_base64}

-- What `_validate_der_sequence` returns, or the IndexError of a read beyond the end.
pub data Der : Type 0 where
  no_sequence index_error : Der
  sequence : ℕ → Der

abbrev read_byte : Bytes → ℕ → (ℕ → Der) → Der
read_byte content i use_byte = elim (get_elem? content i) [
  | none ↦ index_error
  | some b ↦ use_byte b
]

abbrev pub asn1_tags : List ℕ
asn1_tags = 0x02 ∷ 0x03 ∷ 0x04 ∷ 0x06 ∷ 0x30 ∷ 0x31 ∷ []

-- From the length of the content and of the header on.
unfoldable pub validate_content : Bytes → ℕ → ℕ → ℕ → Der
validate_content content offset len header_len =
    let total_len = header_len + len in
    if ltb len 32 || ltb (length content) (offset + total_len)
    then no_sequence
    else read_byte content (offset + header_len)
        λ tag. if any (◌==◌ tag) asn1_tags then sequence total_len else no_sequence

-- From the byte that gives the length, or how many bytes give it.
unfoldable pub validate_length : Bytes → ℕ → ℕ → Der
validate_length content offset len_byte =
    if ltb len_byte 0x80
    then validate_content content offset len_byte 2
    else if len_byte == 0x81
    then read_byte content (offset + 2) (λ b. validate_content content offset b 3)
    else if len_byte == 0x82
    then read_byte content (offset + 2) (λ hi.
      read_byte content (offset + 3) (λ lo. validate_content content offset (hi * 256 + lo) 4))
    else no_sequence

-- `_validate_der_sequence`
unfoldable pub validate_der : Bytes → ℕ → Der
validate_der content offset =
    if ltb (length content) (offset + 4)
    then no_sequence
    else read_byte content offset (λ tag.
      if tag == 0x30
      then read_byte content (offset + 1) (validate_length content offset)
      else no_sequence)

abbrev pub add_der : String → ℕ → ℕ → List Span → List Span
add_der artifact_hash i der_len spans =
    if is_covered spans i (i + der_len)
    then spans
    else spans
      ++ span_of artifact_hash byte i (i + der_len) "extract.framing.asn1_der" "framing.asn1_der"
        ∷ []

-- `while i < n - 32:` on fuel; `none` is an IndexError, or that the fuel ran out.
unfoldable pub der_sequences : ℕ → ℕ → Bytes → String → List Span → Option (List Span)
der_sequences zero i source artifact_hash spans = none
der_sequences (suc fuel) i source artifact_hash spans =
    if ltb (i + 32) (length source)
    then elim (validate_der source i) [
      | index_error ↦ none
      | no_sequence ↦ der_sequences fuel (i + 1) source artifact_hash spans
      | sequence der_len ↦
          der_sequences fuel (i + der_len) source artifact_hash
            (add_der artifact_hash i der_len spans)
    ]
    else some spans

module _ (b64decode : Bytes → Option Bytes) where
  -- The payload, less its white space, has a length that is a multiple of 4 and decodes to at least
  -- `least` bytes.
  unfoldable pub is_payload : ℕ → Bytes → Bool
  is_payload least text =
      let payload = keep (λ c. not (is_space c)) text in
      length payload % 4 == 0
      && elim (b64decode payload) [ none ↦ false | some decoded ↦ leb least (length decoded) ]

  unfoldable pub pem_envelopes : Bytes → String → List Match → List Span
  unfolding is_payload
  pem_envelopes source artifact_hash [] = []
  pem_envelopes source artifact_hash (m ∷ ms) =
      let rest = pem_envelopes source artifact_hash ms in
      if is_payload 24 (slice m.group_start m.group_stop source)
      then span_of artifact_hash byte m.start m.stop "extract.framing.pem_envelope"
          "framing.pem_envelope"
        ∷ rest
      else rest

  unfoldable pub base64_blobs : Bytes → String → List Match → List Span → List Span
  unfolding is_payload
  base64_blobs source artifact_hash [] spans = spans
  base64_blobs source artifact_hash (m ∷ ms) spans = base64_blobs source artifact_hash ms (
      if not (is_covered spans m.start m.stop) && is_payload 48 (slice m.start m.stop source)
      then spans
        ++ span_of artifact_hash byte m.start m.stop "extract.framing.base64_blob"
            "framing.base64_blob"
          ∷ []
      else spans)

  unfoldable pub extract_framing : Bytes → String → Option (List Span)
  extract_framing source artifact_hash =
      der_sequences (suc (length source)) 0 source artifact_hash (
        base64_blobs source artifact_hash (finditer structural_base64 source)
          (pem_envelopes source artifact_hash (finditer structural_pem source)))
