-- ===== src/Database/Rescore/Audited.antt =====
-- The whole of `rescore_scan_findings` (backend/api/store.py): the update of the tables and the
-- row that it adds to the audit log.
use sih.Prelude.{
  ℕ, ◌+◌, ◌≡◌, Option, none, some, String, List, length, some_inj, none-some, Option-cases, inl,
  inr, subst, length-append, [], ◌∷◌,
}
use sih.Prelude.Text.{codes}
use sih.Prelude.Bytes.{Bytes}
use sih.Model.Scans.{BandCounts}
use sih.Audit.{Hashing, Record, Entry, intact, log_audit, audit_row, verify_audit_log_integrity}
use sih.Audit.Chain.{HasWidth, log_audit-verify_audit_log_integrity}
use sih.Database.{FindingRecord}
use sih.Database.Rescore.{Tables, rescore_rows}

module _ (h : Hashing) where
  pub record Store : Type 0 where
    pub tables : Tables
    pub log : List (Record h)

  -- `detail={"crqc_years": …, "rescored": …, "changed": …}`
  module _ (detail : Option ℕ → ℕ → ℕ → h.Detail) where
    unfoldable pub rescore_entry :
        String → Option ℕ → BandCounts → List FindingRecord → Entry h.Detail
    rescore_entry scan_id crqc_years b changed = record {
      actor = none;
      action = codes "scan.rescore";
      entity_type = codes "scan";
      entity_id = codes scan_id;
      detail = some (
          detail crqc_years (b.critical_count + b.high_count + b.medium_count + b.low_count)
            (length changed));
    }

    -- The counts, the changed rows and the store; `none` is the result `(None, b"")`, which leaves
    -- the store as it is. `current` is the actor of the request.
    unfoldable pub rescore_scan_findings :
        Bytes → String → Option ℕ → Store → Option (BandCounts × List FindingRecord × Store)
    rescore_scan_findings current scan_id crqc_years st =
        elim (rescore_rows scan_id crqc_years st.tables) [
          | none ↦ none
          | some (b, changed, tables) ↦ some (
            b,
            changed,
            record {
              tables = tables;
              log = log_audit h current (rescore_entry scan_id crqc_years b changed) st.log;
            },
          )
        ]

    -- A rescore of a store whose audit log is intact leaves the log intact and one row longer, and
    -- its tables, counts and changed rows are those of the update.
    pub rescore_scan_findings-intact :
        HasWidth h
        → (current : Bytes) (scan_id : String) (c : Option ℕ) (st : Store) (b : BandCounts)
          (changed : List FindingRecord) (st' : Store)
        → verify_audit_log_integrity h st.log ≡ intact
        → rescore_scan_findings current scan_id c st ≡ some (b, changed, st')
        → (verify_audit_log_integrity h st'.log ≡ intact)
          × (length st'.log ≡ length st.log + 1)
          × (rescore_rows scan_id c st.tables ≡ some (b, changed, st'.tables))
    unfolding rescore_scan_findings log_audit
    rescore_scan_findings-intact w current scan_id c st b changed st' v e =
        elim (Option-cases (rescore_rows scan_id c st.tables)) [
          | inl k ↦ absurd (none-some (rw (k, rescore_scan_findings) at e))
          | inr (o, k) ↦
              let entry = rescore_entry scan_id c o.0 o.1 in
              subst
                (λ (p : BandCounts × List FindingRecord × Store).
                  (verify_audit_log_integrity h (p.2).log ≡ intact)
                  × (length (p.2).log ≡ length st.log + 1)
                  × (rescore_rows scan_id c st.tables ≡ some (p.0, p.1, (p.2).tables)))
                (some_inj (rw (k, rescore_scan_findings) at e))
                (
                  log_audit-verify_audit_log_integrity h w current entry st.log v,
                  length-append st.log (audit_row h current entry st.log ∷ []),
                  k,
                )
        ]
