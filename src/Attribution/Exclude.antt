-- ===== src/Attribution/Exclude.antt =====
-- Which unclaimed spans are excluded, and why (`evaluate_exclusions` of
-- backend/engine/attribute/exclude.py).
pub mod Partition
use sih.Prelude.{
  ◌≡◌, Bool, true, false, Option, none, some, String, List, [], ◌∷◌, ◌||◌, ◌&&◌, find?,
  if◌then◌else◌,
}
use sih.Prelude.Text.{str_eq}
use sih.Prelude.Bytes.{Bytes, contains, slice}
use sih.Attribution.{Span}
use sih.Attribution.Predicates.{
  Library, Table, crc32, base64, lower_hex, upper_hex, table_bytes, benign_table_registry,
  is_identity_byte_table, Payload, is_media_or_plain_text_base64, CrcTable, is_crc_numeric_array,
  is_ascii_text_asn1, Bleed, is_source_quote_bleed, BenignArx, is_benign_arx,
}

-- `predicate_id` with what the text of `falsifiable_reason` depends on.
pub data Exclusion : Type 0 where
  known_table : Table → Exclusion
  identity_byte_mapping : Exclusion
  media_or_text_payload : Payload → Exclusion
  benign_crc_table : CrcTable → Exclusion
  ascii_text_not_der : Exclusion
  source_quote_bleed : Bleed → Exclusion
  benign_arx : BenignArx → Exclusion

unfoldable pub predicate_id : Exclusion → String
predicate_id (known_table t) = "benign_table_registry"
predicate_id identity_byte_mapping = "identity_byte_mapping"
predicate_id (media_or_text_payload p) = "media_or_text_payload"
predicate_id (benign_crc_table t) = "benign_crc_table"
predicate_id ascii_text_not_der = "ascii_text_not_der"
predicate_id (source_quote_bleed b) = "source_quote_bleed"
predicate_id (benign_arx a) = "benign_arx"

pub record ExclusionRecord : Type 0 where
  pub span : Span
  pub reason : Exclusion
  pub content_hash : String

-- The three results of `evaluate_exclusions`.
pub record Exclusions : Type 0 where
  pub excluded : List Span
  pub residue : List Span
  pub records : List ExclusionRecord

-- `span.signal_type == name`
unfoldable pub has_signal : String → Span → Bool
has_signal name span = elim span.signal_type [ none ↦ false | some s ↦ str_eq s name ]

module _ (lib : Library) where
  -- `BENIGN_TABLE_HASHES[slice_hash]`: of two tables with one hash, the last one is in the map.
  unfoldable pub table_with_hash : String → Option Table
  table_with_hash hash =
      find? (λ t. str_eq (lib.sha256 (table_bytes t)) hash)
        (upper_hex ∷ lower_hex ∷ base64 ∷ crc32 ∷ [])

  -- The loop over `BENIGN_TABLE_REGISTRY`.
  unfoldable pub table_overlapping : Bytes → Option Table
  table_overlapping s =
      find? (λ t. contains (table_bytes t) s || contains s (table_bytes t)) benign_table_registry

  -- Step 1: the table and the hash that goes into the record.
  unfoldable pub match_benign : Bytes → Option (Table × String)
  match_benign s = elim (table_with_hash (lib.sha256 s)) [
    | some t ↦ some (t, lib.sha256 s)
    | none ↦ elim (table_overlapping s) [
      | none ↦ none
      | some t ↦ some (t, lib.sha256 (table_bytes t))
    ]
  ]

  -- Steps 2 to 7. The signal types differ, so at most one of them applies to a span.
  unfoldable pub match_signal : Span → Bytes → Option Exclusion
  match_signal span s =
      if has_signal "table.bijection_256" span && is_identity_byte_table s
      then some identity_byte_mapping
      else if has_signal "framing.base64_blob" span || has_signal "framing.pem_envelope" span
      then elim (is_media_or_plain_text_base64 lib s) [
        | none ↦ none
        | some p ↦ some (media_or_text_payload p)
      ]
      else if has_signal "literals.numeric_array" span
      then elim (is_crc_numeric_array s) [ none ↦ none | some t ↦ some (benign_crc_table t) ]
      else if has_signal "framing.asn1_der" span
      then if is_ascii_text_asn1 s then some ascii_text_not_der else none
      else if has_signal "literals.high_entropy_string" span
      then elim (is_source_quote_bleed s) [ none ↦ none | some b ↦ some (source_quote_bleed b) ]
      else if has_signal "arx.source_composite" span
      then elim (is_benign_arx s) [ none ↦ none | some a ↦ some (benign_arx a) ]
      else none

  -- The body of the loop up to the `append`s: the record of an excluded span.
  unfoldable pub exclusion_of : Bytes → Span → Option ExclusionRecord
  exclusion_of content span =
      let s = slice span.start span.stop content in
      elim (match_benign s) [
        | some (t, hash) ↦
            some (record { span = span; reason = known_table t; content_hash = hash })
        | none ↦ elim (match_signal span s) [
          | none ↦ none
          | some r ↦ some (record { span = span; reason = r; content_hash = lib.sha256 s })
        ]
      ]

  -- The `append`s for a span, on the results for the spans after it.
  unfoldable pub exclude_one : Bytes → Span → Exclusions → Exclusions
  exclude_one content span e = elim (exclusion_of content span) [
    | none ↦ record e { residue = span ∷ e.residue }
    | some r ↦ record e { excluded = span ∷ e.excluded; records = r ∷ e.records }
  ]

  unfoldable pub evaluate_exclusions : Bytes → List Span → Exclusions
  evaluate_exclusions content [] = record { excluded = []; residue = []; records = [] }
  evaluate_exclusions content (s ∷ ss) = exclude_one content s (evaluate_exclusions content ss)
