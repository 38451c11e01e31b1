-- ===== src/Scans/Pipeline/Logged.antt =====
-- The operations on scans do not change what the check of the audit log says.
use sih.Prelude.{ℕ, ◌≡◌, refl, ap, ◌∙◌, Option, String, List, Option-cases, inl, inr}
use sih.Prelude.Bytes.{Bytes}
use sih.Model.Scans.{ScanStatus, Scan}
use sih.Model.{Finding, Policy}
use sih.Audit.{Hashing, Verdict, verify_audit_log_integrity}
use sih.Audit.Chain.{HasWidth, verify_audit_log_integrity-log_audit}
use sih.Residue.{save_coverage}
use sih.Scans.{
  Store, ScanResult, EventType, Texts, get_scan, delete_scan, insert_scan, create_initial_scan,
  create_scan_from_result, create_snapshot,
}

-- What the check of the audit log says.
abbrev pub verdict : (h : Hashing) → Store h → Verdict
verdict h st = verify_audit_log_integrity h st.coverage.log

module _ (h : Hashing) (w : HasWidth h) (t : Texts h) (current : Bytes) (now : ℕ) where
  pub verdict-create_initial_scan :
      (scan_id : String) (path target_override : Option String) (policy : Policy) (st : Store h)
      → verdict h (create_initial_scan h t current now scan_id path target_override policy st).1
        ≡ verdict h st
  unfolding create_initial_scan
  verdict-create_initial_scan scan_id path target_override policy st =
      verify_audit_log_integrity-log_audit h w current _ st.coverage.log

  delete_scan-coverage :
      (scan_id : String) (st : Store h)
      → (delete_scan h t current now scan_id st).coverage ≡ st.coverage
  unfolding delete_scan
  delete_scan-coverage scan_id st = elim (Option-cases (get_scan h scan_id st)) [
    | inl e ↦ rw (e, delete_scan) refl
    | inr (s, e) ↦ rw (e, delete_scan) refl
  ]

  delete_scan-snapshots :
      (scan_id : String) (st : Store h)
      → (delete_scan h t current now scan_id st).snapshots ≡ st.snapshots
  unfolding delete_scan
  delete_scan-snapshots scan_id st = elim (Option-cases (get_scan h scan_id st)) [
    | inl e ↦ rw (e, delete_scan) refl
    | inr (s, e) ↦ rw (e, delete_scan) refl
  ]

  pub create_scan_from_result-snapshots :
      (scan_id : String) (path target_override : Option String) (result : ScanResult)
      (policy : Policy) (status : ScanStatus) (events : List (EventType × h.Detail))
      (bundle_hash : Option String) (st : Store h)
      → (create_scan_from_result h t current now scan_id path target_override result policy status
          events bundle_hash st).1.snapshots
        ≡ st.snapshots
  unfolding create_scan_from_result insert_scan
  create_scan_from_result-snapshots scan_id path target_override result policy status events
        bundle_hash st =
      delete_scan-snapshots scan_id st

  pub verdict-create_scan_from_result :
      (scan_id : String) (path target_override : Option String) (result : ScanResult)
      (policy : Policy) (status : ScanStatus) (events : List (EventType × h.Detail))
      (bundle_hash : Option String) (st : Store h)
      → verdict h
          (create_scan_from_result h t current now scan_id path target_override result policy status
            events bundle_hash st).1
        ≡ verdict h st
  unfolding create_scan_from_result insert_scan save_coverage
  verdict-create_scan_from_result scan_id path target_override result policy status events
        bundle_hash st =
      let before = delete_scan h t current now scan_id st in
      let same = ap (λ c. verify_audit_log_integrity h c.log) (delete_scan-coverage scan_id st) in
      verify_audit_log_integrity-log_audit h w current _ _
      ∙ verify_audit_log_integrity-log_audit h w current _ before.coverage.log
      ∙ same

  pub verdict-create_snapshot :
      (snapshot_id target_id : String) (scan : Scan) (fs : List Finding) (st : Store h)
      → verdict h (create_snapshot h t current now snapshot_id target_id scan fs st).1
        ≡ verdict h st
  unfolding create_snapshot
  verdict-create_snapshot snapshot_id target_id scan fs st =
      verify_audit_log_integrity-log_audit h w current _ st.coverage.log
