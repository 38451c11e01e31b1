-- ===== src/Estate/Recovery.antt =====
-- The recovery of interrupted scans.
use sih.Prelude.{
  ℕ, suc, ◌+◌, ◌≡◌, refl, ap, ◌∙◌, false, List, [], ◌∷◌, map, keep, length, length-append, All,
  arith, some,
}
use sih.Prelude.Bytes.{Bytes}
use sih.Model.Scans.{ScanStatus, Scan}
use sih.Audit.{Hashing, Record, log_audit, audit_row, verify_audit_log_integrity}
use sih.Audit.Chain.{HasWidth, verify_audit_log_integrity-log_audit}
use sih.Estate.{is_running, Store, entry, recover_row, log_recovery, recover_interrupted_scans}

module _ (h : Hashing) (recovery : ScanStatus → h.Detail) (current : Bytes) (now : ℕ) where
  verify_audit_log_integrity-log_recovery :
      HasWidth h
      → (rows : List Scan) (log : List (Record h))
      → verify_audit_log_integrity h (log_recovery h recovery current now rows log)
        ≡ verify_audit_log_integrity h log
  unfolding log_recovery
  verify_audit_log_integrity-log_recovery w [] log = refl
  verify_audit_log_integrity-log_recovery w (r ∷ rows) log =
      let e = entry h "scan.recovery" "scan" r.id (some (recovery r.status)) in
      verify_audit_log_integrity-log_recovery w rows (log_audit h current e log)
      ∙ verify_audit_log_integrity-log_audit h w current e log

  length-log_recovery :
      (rows : List Scan) (log : List (Record h))
      → length (log_recovery h recovery current now rows log) ≡ length log + length rows
  unfolding log_recovery log_audit
  length-log_recovery [] log = omega arith
  length-log_recovery (r ∷ rows) log =
      let e = entry h "scan.recovery" "scan" r.id (some (recovery r.status)) in
      length-log_recovery rows (log_audit h current e log)
      ∙ omega (arith, length-append log (audit_row h current e log ∷ []))

  none_running :
      (rows : List Scan)
      → keep (λ r. is_running r.status) (map (recover_row h recovery current now) rows) ≡ []
  unfolding recover_row is_running
  none_running [] = refl
  none_running (r ∷ rows) = ground (arith, none_running rows)

  settled :
      (rows : List Scan)
      → All (λ r. is_running r.status ≡ false → recover_row h recovery current now r ≡ r) rows
  unfolding recover_row
  settled [] = tt
  settled (r ∷ rows) = ((λ e. rw e refl), settled rows)

  -- After the recovery no scan is in progress, so a second one recovers nothing; a scan that was
  -- not in progress is as it was; the audit log gets one row for each scan that is recovered, and its
  -- check says what it said before.
  pub recover_interrupted_scans_lem :
      HasWidth h
      → (st : Store h)
      → let (ids, st') = recover_interrupted_scans h recovery current now st in
        ((recover_interrupted_scans h recovery current now st').0 ≡ [])
        × (st'.scans ≡ map (recover_row h recovery current now) st.scans)
        × All (λ r. is_running r.status ≡ false → recover_row h recovery current now r ≡ r) st.scans
        × (length st'.log ≡ length st.log + length ids)
        × (verify_audit_log_integrity h st'.log ≡ verify_audit_log_integrity h st.log)
  unfolding recover_interrupted_scans
  recover_interrupted_scans_lem w st =
      let interrupted = keep (λ r. is_running r.status) st.scans in
      (
        ap (map (λ r. r.id)) (none_running st.scans),
        refl,
        settled st.scans,
        length-log_recovery interrupted st.log
            ∙ ap (λ n. length st.log + n) (length_of_ids interrupted),
        verify_audit_log_integrity-log_recovery w interrupted st.log,
      )
    where
      length_of_ids : (rows : List Scan) → length rows ≡ length (map (λ r. r.id) rows)
      length_of_ids [] = refl
      length_of_ids (r ∷ rows) = ap suc (length_of_ids rows)
