-- ===== src/Extract/All.antt =====
-- All extractors on an artifact (`extract_all` of backend/engine/extract/__init__.py).
use sih.Prelude.{ℕ, Bool, ◌&&◌, ◌||◌, Option, none, some, String, List, ◌++◌, ltb, ◌==◌}
use sih.Prelude.Bytes.{Bytes}
use sih.Prelude.Sort.{sort_by}
use sih.Attribution.{Span}
use sih.Extract.{extract_entropy}
use sih.Extract.Tables.{extract_tables}
use sih.Extract.Source.{extract_arx, extract_bigint, extract_literals}
use sih.Extract.Framing.{extract_framing}

-- `may_stand` is the order of the rules' names: whether the first may stand before the second.
-- The order of `(s.start, s.end, s.producing_rule)`
unfoldable pub span_before : (String → String → Bool) → Span → Span → Bool
span_before may_stand s t =
    ltb s.start t.start
    || s.start == t.start
      && (ltb s.stop t.stop || s.stop == t.stop && may_stand s.producing_rule t.producing_rule)

module _ (minus_log2 : ℕ → ℕ → ℕ) (b64decode : Bytes → Option Bytes)
    (may_stand : String → String → Bool) where
  unfoldable pub extract_all : Bytes → Bytes → String → Option (List Span)
  extract_all source path artifact_hash = elim (extract_tables source path artifact_hash) [
    | none ↦ none
    | some tables ↦ elim (extract_framing b64decode source artifact_hash) [
      | none ↦ none
      | some framed ↦ some (
          sort_by (span_before may_stand) (
            tables
            ++ extract_entropy minus_log2 source path artifact_hash
            ++ extract_arx source path artifact_hash
            ++ extract_bigint source artifact_hash
            ++ framed
            ++ extract_literals minus_log2 source path artifact_hash))
    ]
  ]
