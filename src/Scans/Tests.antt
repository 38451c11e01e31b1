-- ===== src/Scans/Tests.antt =====
-- Runs of the operations on scans.
use sih.Prelude.{◌⊎◌, ◌≡◌, refl, true, some, none, List, [], ◌∷◌, ◌++◌, map, keep, ◌<◌, drop}
use sih.Prelude.Int.{pos}
use sih.Prelude.Text.{codes}
use sih.Prelude.Bytes.{Bytes}
use sih.Model.Scans.{done, Scan, ScanSnapshot, no_stats}
use sih.Model.{Context, Policy, internal, business_medium}
use sih.Model.Findings.{private_key_floor}
use sih.Model.Samples.{sample_scan, sample_finding}
use sih.Audit.Toy.{toy, toy_width}
use sih.Database.{finding_to_record}
use sih.Findings.{Query, paginate}
use sih.Drift.{list_findings}
use sih.Estate.{TargetRecord, TargetKind, scanned, get_target}
use sih.Alerts.{Alert, is_critical}
use sih.Residue.{CoverageCertificate, get_coverage_certificate}
use sih.Scans.{
  Store, ScanResult, Texts, get_scan, list_events, create_scan_from_result, number_events, other,
  EventType, final_type,
}
use sih.Scans.Created.{create_scan_from_result-coverage}
use sih.Scans.Events.{list_events-create_scan_from_result}
use sih.Scans.Routes.{not_found, Scanner, ok, is_unfiltered, get_findings}
use sih.Scans.Routes.Paging.{by_id, get_findings_lem}
use sih.Scans.Triage.{finding_row, patch_triage, IsTriaged, patch_triage_lem}
use sih.Model.{accepted_risk}
use sih.Model.Findings.{Triage}
use sih.Audit.{verify_audit_log_integrity}
use sih.Scans.Pipeline.{World, Alerting, target_run, execute_target_scan}
use sih.Scans.Pipeline.Logged.{verdict}
use sih.Scans.Pipeline.Complete.{execute_target_scan_lem}

abbrev inner : Context
inner = record {
  exposure = internal;
  criticality = business_medium;
  shelf_life_years = pos 5;
  migration_years = pos 3;
}

abbrev fallback : Policy
fallback = record {
  id = "policy_default";
  name = "Default";
  crqc_years = 10;
  default = inner;
  contexts = [];
}

abbrev texts : Texts toy
texts = record {
  started = λ target status. codes target;
  created = λ target count. codes target;
  final_payload = λ scan_id count. codes scan_id;
  recorded = λ c. codes c.scan_id;
  snapped = λ target scan_id. codes scan_id;
  hash_of = λ p. p;
  path_before = λ p q. true;
}

abbrev old_scan : Scan
old_scan = record sample_scan { id = "s2" }

-- One scan with one finding.
abbrev one_scan : Store toy
one_scan = record {
  scans = old_scan ∷ [];
  findings = finding_to_record (record sample_finding { id = "f0" }) "s2" ∷ [];
  events = [];
  snapshots = [];
  coverage = record { rows = []; certificates = []; artifacts = []; log = [] };
}

abbrev found : ScanResult
found = record { findings = sample_finding ∷ []; stats = no_stats }

abbrev progress : List (EventType × Bytes)
progress = (other "progress", codes "1") ∷ []

create_scan_from_result-coverage_run :
    let st' =
      (create_scan_from_result toy texts
        (codes "system")
        5
        "s1"
        (some "/srv")
        none
        found
        fallback
        done
        progress
        none
        one_scan).1 in
    (c : CoverageCertificate) × (get_coverage_certificate "s1" st'.coverage.certificates ≡ some c)
    × (c.coverage_ratio ≡ record { num = 1; den = 1 })
    × (c.residue_mass ≡ 0)
    × (c.residue_cluster_count ≡ 0)
    × (c.attributed_mass ≡ c.total_mass)
    × (0 < c.total_mass)
create_scan_from_result-coverage_run =
    create_scan_from_result-coverage toy texts (codes "system") 5 "s1" (some "/srv") none found
      fallback done progress none one_scan

list_events-create_scan_from_result_example :
    list_events toy "s1" 1
      (create_scan_from_result toy texts
        (codes "system")
        5
        "s1"
        (some "/srv")
        none
        found
        fallback
        done
        progress
        none
        one_scan).1
    ≡ number_events "s1" 2 (drop 1 (progress ++ (final_type done, codes "s1") ∷ []))
list_events-create_scan_from_result_example =
    list_events-create_scan_from_result toy texts (codes "system") 5 "s1" (some "/srv") none found
      fallback done progress none one_scan 1 refl

abbrev plain : Query
plain = record {
  band = none;
  family = none;
  surface = none;
  source = none;
  min_confidence = none;
  needs_review = none;
  q = some "";
  sort = none;
}

get_findings_lem_example :
    get_findings toy (λ a b. true) private_key_floor (λ b. b) "s2" plain (some (pos 0)) 10 one_scan
    ≡ ok (
        paginate
          (some (pos 0))
          10
          (by_id toy (λ a b. true) private_key_floor (λ b. b) "s2" one_scan))
unfolding get_scan is_unfiltered
get_findings_lem_example =
    get_findings_lem toy (λ a b. true) private_key_floor (λ b. b) "s2" plain 0 10 old_scan one_scan
      refl refl

abbrev host : TargetRecord
host = record {
  id = "t1";
  name = "Host";
  kind = TargetKind.repo;
  uri = "/srv";
  policy_id = "policy_default";
  schedule = "@daily";
  enabled = true;
  last_scan_id = none;
  last_scan_at = none;
  created_at = 0;
}

abbrev scanner : Scanner toy
scanner = record {
  default_policy = fallback;
  policies = [];
  criticalities = [];
  exists = λ p. true;
  run = λ p policy. record { reported = progress; result = some found };
}

abbrev alerting : Alerting toy
alerting = record { draw = λ n. "alt_1"; detail = λ type band. codes "critical"; webhook = true }

abbrev world : World toy
world = record { store = one_scan; targets = host ∷ []; alerts = []; sent = []; drawn = 0 }

execute_target_scan_lem_example :
    (scan : Scan) × (v' : World toy) × (execute_target_scan toy texts
        (codes "system")
        5
        scanner
        alerting
        private_key_floor
        "s1"
        "snap_1"
        "t1"
        world
      ≡ some (scan, v'))
    × (get_scan toy "s1" v'.store ≡ some scan)
    × (scan.status ≡ done)
    × (list_findings private_key_floor "s1" v'.store.findings ≡ sample_finding ∷ [])
    × (get_target "t1" v'.targets ≡ some (scanned "s1" 5 host))
    × ((snapshot : ScanSnapshot) × (v'.store.snapshots ≡ snapshot ∷ [])
        × (snapshot.scan_id ≡ "s1")
        × (snapshot.total_findings ≡ 1))
    × ((made : List Alert) × (v'.alerts ≡ made)
        × (map (λ m. m.finding_id) made
            ≡ map (λ f. some f.id) (keep is_critical (sample_finding ∷ []))))
    × (verdict toy v'.store ≡ verdict toy one_scan)
unfolding get_target target_run finding_to_record
execute_target_scan_lem_example =
    execute_target_scan_lem toy toy_width texts (codes "system") 5 scanner alerting
      private_key_floor "s1" "snap_1" "t1" host world refl refl

abbrev accepted : Triage
accepted = record { status = accepted_risk; note = some "reviewed" }

patch_triage_lem_example :
    let o = patch_triage toy private_key_floor (codes "system") "f0" accepted one_scan in
    (((finding_row toy private_key_floor "f0" one_scan ≡ none) × (o ≡ (not_found, one_scan)))
      ⊎ IsTriaged toy private_key_floor (codes "system") "f0" accepted one_scan o)
    × (verify_audit_log_integrity toy o.1.coverage.log ≡ verify_audit_log_integrity toy [])
patch_triage_lem_example =
    patch_triage_lem toy private_key_floor (codes "system") toy_width "f0" accepted one_scan
