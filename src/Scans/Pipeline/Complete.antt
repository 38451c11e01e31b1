-- ===== src/Scans/Pipeline/Complete.antt =====
-- What a scan of a target leaves behind.
use sih.Prelude.{
  ℕ, ◌≡◌, refl, sym, ap, ◌∙◌, subst, none, some, String, List, [], ◌∷◌, ◌++◌, map, keep, length,
  Bool-cases, inl, inr, some_inj, none-some,
}
use sih.Prelude.Keep.{find?-true}
use sih.Prelude.Text.{str_eq, eq_iff}
use sih.Prelude.Bytes.{Bytes}
use sih.Model.Scans.{Scan, ScanSnapshot}
use sih.Model.Findings.{Reason}
use sih.Audit.{Hashing}
use sih.Audit.Chain.{HasWidth}
use sih.Drift.{list_findings}
use sih.Estate.{TargetRecord, get_target, update_target, scanned}
use sih.Alerts
use sih.Alerts.{Alert, is_critical, evaluate_scan_alerts}
use sih.Alerts.Critical.{evaluate_scan_alerts_lem}
use sih.Scans.{
  Texts, get_scan, create_initial_scan, create_scan_from_result, create_snapshot, result_scan,
}
use sih.Scans.Created.{create_scan_from_result_lem}
use sih.Scans.Routes.{ScanRun, Scanner, status_of, result_of}
use sih.Scans.Pipeline.{
  World, Alerting, target_run, target_policy, alert_world, scan_target, execute_target_scan,
}
use sih.Scans.Pipeline.Logged.{
  verdict, verdict-create_initial_scan, verdict-create_scan_from_result, verdict-create_snapshot,
  create_scan_from_result-snapshots,
}

get_target-id :
    (id : String) (rows : List TargetRecord) (r : TargetRecord)
    → get_target id rows ≡ some r
    → r.id ≡ id
unfolding get_target
get_target-id id rows r e = (eq_iff r.id id).0 (find?-true (λ s. str_eq s.id id) rows r e)

get_target-update_target :
    (id scan_id : String) (now : ℕ) (rows : List TargetRecord) (r : TargetRecord)
    → get_target id rows ≡ some r
    → get_target id (update_target id (scanned scan_id now) rows) ≡ some (scanned scan_id now r)
unfolding get_target update_target
get_target-update_target id scan_id now [] r e = absurd (none-some e)
get_target-update_target id scan_id now (s ∷ rows) r e = elim (Bool-cases (str_eq s.id id)) [
  | inl k ↦ rw k (rw k (ap (λ x. some (scanned scan_id now x)) (some_inj (rw k at e))))
  | inr k ↦ rw k (rw k (get_target-update_target id scan_id now rows r (rw k at e)))
]

-- The scan is set on the target that was read, under its own id.
get_target-scanned :
    (id scan_id : String) (now : ℕ) (rows : List TargetRecord) (r : TargetRecord)
    → get_target id rows ≡ some r
    → get_target id (update_target r.id (scanned scan_id now) rows) ≡ some (scanned scan_id now r)
get_target-scanned id scan_id now rows r e =
    subst
      (λ i.
        get_target id (update_target i (scanned scan_id now) rows) ≡ some (scanned scan_id now r))
      (sym (get_target-id id rows r e)) (get_target-update_target id scan_id now rows r e)

module _ (h : Hashing) (w : HasWidth h) (t : Texts h) (current : Bytes) (now : ℕ) (s : Scanner h)
    (a : Alerting h) (no_reason : Reason) where
  abbrev run_of : TargetRecord → ScanRun h.Detail
  run_of target =
      target_run h t current now s a no_reason target.uri
        (target_policy h t current now s a no_reason target)

  -- The scan of a target that is there, under an id that has no findings yet, with a hash of a fixed
  -- width: the scan is stored with the status of the run, done or failed, and with the findings of the
  -- run; the target names it as its last scan; one snapshot is added, which counts the findings; the
  -- alerts grow by one for each critical finding, in order; and the check of the audit log says what it said before.
  pub execute_target_scan_lem :
      (scan_id snapshot_id target_id : String) (target : TargetRecord) (v : World h)
      → get_target target_id v.targets ≡ some target
      → keep (λ r. str_eq r.scan_id scan_id) v.store.findings ≡ []
      → (scan : Scan) × (v' : World h) × (execute_target_scan h t current now s a no_reason scan_id
            snapshot_id target_id v
          ≡ some (scan, v'))
        × (get_scan h scan_id v'.store ≡ some scan)
        × (scan.status ≡ status_of (run_of target).result)
        × (list_findings no_reason scan_id v'.store.findings
            ≡ (result_of (run_of target).result).findings)
        × (get_target target_id v'.targets ≡ some (scanned scan_id now target))
        × ((snapshot : ScanSnapshot) × (v'.store.snapshots ≡ v.store.snapshots ++ snapshot ∷ [])
            × (snapshot.scan_id ≡ scan_id)
            × (snapshot.total_findings ≡ length (result_of (run_of target).result).findings))
        × ((made : List Alert) × (v'.alerts ≡ v.alerts ++ made)
            × (map (λ m. m.finding_id) made
                ≡ map
                    (λ f. some f.id)
                    (keep is_critical (result_of (run_of target).result).findings)))
        × (verdict h v'.store ≡ verdict h v.store)
  unfolding execute_target_scan scan_target alert_world create_snapshot create_initial_scan
      create_scan_from_result result_scan get_scan
  execute_target_scan_lem scan_id snapshot_id target_id target v here fresh =
      let run = run_of target in
      let policy = target_policy h t current now s a no_reason target in
      let result = result_of run.result in
      let st₁ =
        (create_initial_scan h t current now scan_id (some target.uri) (some target.name) policy
          v.store).1 in
      let created =
        create_scan_from_result h t current now scan_id (some target.uri) (some target.name) result
          policy (status_of run.result) [] none st₁ in
      let scan = created.0 in
      let st₂ = created.1 in
      let (stored, same, _) =
        create_scan_from_result_lem h t current now no_reason scan_id (some target.uri)
          (some target.name) result policy (status_of run.result) [] none st₁ (λ e. fresh) in
      let fs = list_findings no_reason scan_id st₂.findings in
      let (snapshot, st₃) = create_snapshot h t current now snapshot_id target.id scan fs st₂ in
      let tables : Alerts.Store h = record {
        alerts = v.alerts;
        log = st₃.coverage.log;
        sent = v.sent;
        drawn = v.drawn;
      } in
      let (ids, grown, verified) =
        evaluate_scan_alerts_lem h a.draw a.detail current a.webhook now w target.id fs tables in
      (
        scan,
        (scan_target h t current now s a no_reason scan_id snapshot_id target v).1,
        rw (here, execute_target_scan) refl,
        stored,
        refl,
        same,
        get_target-scanned target_id scan_id now v.targets target here,
        (
          snapshot,
          ap (◌++ snapshot ∷ []) (
              create_scan_from_result-snapshots h w t current now scan_id (some target.uri)
                (some target.name) result policy (status_of run.result) [] none st₁),
          refl,
          ap length same,
        ),
        (
          (evaluate_scan_alerts h a.draw a.detail current a.webhook now target.id fs tables).0,
          grown,
          ids ∙ ap (λ gs. map (λ f. some f.id) (keep is_critical gs)) same,
        ),
        verified
            ∙ verdict-create_snapshot h w t current now snapshot_id target.id scan fs st₂
            ∙ verdict-create_scan_from_result h w t current now scan_id (some target.uri)
                (some target.name) result policy (status_of run.result) [] none st₁
            ∙ verdict-create_initial_scan h w t current now scan_id (some target.uri)
                (some target.name) policy v.store,
      )
