-- ===== src/Estate/Tests.antt =====
-- Runs of the recovery and of the changes of targets.
use sih.Prelude.{◌+◌, ◌≡◌, true, false, none, some, String, [], ◌∷◌, map, length, All}
use sih.Prelude.Bytes.{Bytes}
use sih.Prelude.Text.{codes}
use sih.Model.Samples.{sample_scan}
use sih.Model.Scans.{ScanStatus, scanning}
use sih.Audit.{verify_audit_log_integrity}
use sih.Audit.Toy.{toy, toy_width}
use sih.Estate.{
  is_running, repo, TargetRecord, TargetCreate, TargetPatch, Store, recover_row,
  recover_interrupted_scans, get_target, create_target, patch_target, delete_target,
}
use sih.Estate.Recovery.{recover_interrupted_scans_lem}
use sih.Estate.Targets.{target_changes}

abbrev target : TargetRecord
target = record {
  id = "t1";
  name = "web";
  kind = repo;
  uri = "/srv/web";
  policy_id = "p";
  schedule = "@daily";
  enabled = true;
  last_scan_id = none;
  last_scan_at = none;
  created_at = 1;
}

abbrev store : Store toy
store = record {
  scans =
      record sample_scan { target = "web"; status = scanning; finished_at = none }
      ∷ record sample_scan { id = "s2"; target = "web"; finished_at = some 4 }
      ∷ [];
  targets = target ∷ [];
  log = [];
}

abbrev recovery : ScanStatus → Bytes
recovery s = codes "interrupted"

abbrev created : String → Bytes
created name = codes name

recover_interrupted_scans_lem_example :
    let (ids, st') = recover_interrupted_scans toy recovery (codes "system") 9 store in
    ((recover_interrupted_scans toy recovery (codes "system") 9 st').0 ≡ [])
    × (st'.scans ≡ map (recover_row toy recovery (codes "system") 9) store.scans)
    × All
        (λ r. is_running r.status ≡ false → recover_row toy recovery (codes "system") 9 r ≡ r)
        store.scans
    × (length st'.log ≡ length store.log + length ids)
    × (verify_audit_log_integrity toy st'.log ≡ verify_audit_log_integrity toy store.log)
recover_interrupted_scans_lem_example =
    recover_interrupted_scans_lem toy recovery (codes "system") 9 toy_width store

abbrev second : TargetCreate
second = record {
  name = "api";
  kind = repo;
  uri = "/srv/api";
  policy_id = "p";
  schedule = "@hourly";
  enabled = true;
}

abbrev disable : TargetPatch
disable = record { name = none; policy_id = none; schedule = none; enabled = some false }

changes_run :
    let (made, after_create) = create_target toy created (codes "ops") "t1" 5 second store in
    let (answer, after_patch) = patch_target toy created (codes "ops") "t1" disable store in
    let (found, after_delete) = delete_target toy created (codes "ops") "t1" store in
    (get_target "t1" store.targets ≡ none → get_target "t1" after_create.targets ≡ some made)
    × (get_target "t1" after_patch.targets ≡ answer)
    × (get_target "t1" after_delete.targets ≡ none)
    × (found ≡ false → after_delete ≡ store)
changes_run = target_changes toy created (codes "ops") "t1" 5 second disable store
