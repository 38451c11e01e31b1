-- ===== src/Scans/Pipeline.antt =====
-- The scan of a target, from the target to its alerts (`execute_target_scan` of
-- backend/scheduler/engine.py).
pub mod Logged
pub mod Complete
use sih.Prelude.{
  ℕ, suc, ◌+◌, ◌≡◌, Bool, true, false, Option, none, some, String, List, [], ◌∷◌, ◌++◌,
  if◌then◌else◌,
}
use sih.Prelude.Bytes.{Bytes}
use sih.Model.Scans.{done, Scan}
use sih.Model.{Finding, RiskBand, Policy}
use sih.Model.Findings.{Reason}
use sih.Audit.{Hashing}
use sih.Drift.{list_findings}
use sih.Estate.{TargetRecord, get_target, update_target, scanned}
use sih.Policies.{resolve_policy}
use sih.Alerts
use sih.Alerts.{Alert, AlertType, evaluate_scan_alerts}
use sih.Scans.{
  Store, ScanResult, no_result, Texts, create_initial_scan, create_scan_from_result,
  create_snapshot, with_log,
}
use sih.Scans.Routes.{ScanRun, Scanner, status_of, result_of}

module _ (h : Hashing) where
  pub record World : Type 0 where
    pub store : Store h
    pub targets : List TargetRecord
    pub alerts : List Alert
    pub sent : List Alert
    pub drawn : ℕ

  -- The ids that alerts draw, the JSON object of an alert, and whether a webhook is set.
  pub record Alerting : Type 0 where
    pub draw : ℕ → String
    pub detail : AlertType → RiskBand → h.Detail
    pub webhook : Bool

  module _ (t : Texts h) (current : Bytes) (now : ℕ) (s : Scanner h) (a : Alerting)
      (no_reason : Reason) where
    -- The run of the scanner; a path that does not exist gives an empty result.
    unfoldable pub target_run : String → Policy → ScanRun h.Detail
    target_run uri policy =
        if s.exists uri then s.run uri policy else record { reported = []; result = some no_result }

    -- The alerts of the findings, in the tables of the world.
    unfoldable pub alert_world : String → List Finding → World → World
    alert_world target_id fs w =
        let tables : Alerts.Store h = record {
          alerts = w.alerts;
          log = w.store.coverage.log;
          sent = w.sent;
          drawn = w.drawn;
        } in
        let (made, after) =
          evaluate_scan_alerts h a.draw a.detail current a.webhook now target_id fs tables in
        record w {
          store = with_log h after.log w.store;
          alerts = after.alerts;
          sent = after.sent;
          drawn = after.drawn;
        }

    unfoldable pub target_policy : TargetRecord → Policy
    target_policy target =
        resolve_policy s.default_policy s.policies s.criticalities
          (record { path = some target.uri; policy_id = some target.policy_id; crqc_years = none })
          (some target.id)

    -- From the target on; `scan_id` and `snapshot_id` are the ids that are drawn.
    unfoldable pub scan_target : String → String → TargetRecord → World → Scan × World
    scan_target scan_id snapshot_id target w =
        let policy = target_policy target in
        let run = target_run target.uri policy in
        let (initial, st₁) =
          create_initial_scan h t current now scan_id (some target.uri) (some target.name) policy
            w.store in
        let (scan, st₂) =
          create_scan_from_result h t current now initial.id (some target.uri) (some target.name)
            (result_of run.result) policy (status_of run.result) [] none st₁ in
        let fs = list_findings no_reason scan.id st₂.findings in
        let (snapshot, st₃) = create_snapshot h t current now snapshot_id target.id scan fs st₂ in
        (
          scan,
          alert_world target.id fs (record w {
            store = st₃;
            targets = update_target target.id (scanned scan.id now) w.targets;
          }),
        )

    -- `execute_target_scan`; `none` is the ValueError of a target that is not there.
    unfoldable pub execute_target_scan : String → String → String → World → Option (Scan × World)
    execute_target_scan scan_id snapshot_id target_id w = elim (get_target target_id w.targets) [
      | none ↦ none
      | some target ↦ some (scan_target scan_id snapshot_id target w)
    ]
