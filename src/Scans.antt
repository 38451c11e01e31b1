-- ===== src/Scans.antt =====
-- Scans, their findings, events and snapshots in the store (backend/api/store.py). A table is the
-- list of its rows in the order in which they were added.
mod Types
pub mod Created
pub mod Events
pub mod Routes
pub mod Pipeline
pub mod Triage
mod Tests
use sih.Prelude.{
  ℕ, zero, suc, ◌+◌, ◌*◌, ◌≡◌, Bool, true, false, not, ◌&&◌, ◌||◌, Option, none, some, String, List,
  [], ◌∷◌, ◌++◌, map, any, keep, find?, length, leb, ltb, ◌==◌, sum_by, drop, take, if◌then◌else◌,
}
use sih.Prelude.Text.{str_eq, codes}
use sih.Prelude.Bytes.{Bytes}
use sih.Prelude.Int.{ℤ, pos_part}
use sih.Prelude.Sort.{sort_by}
use sih.Model.Scans.{
  BandCounts, ScanStatus, scanning, done, failed, Scan, ScanSnapshot, no_stats, no_bands,
}
use sih.Model.{Finding, Policy}
use sih.Model.Findings.{Fraction, Reason}
use sih.Audit.{Hashing, Record, Entry, log_audit}
use sih.Database.{FindingRecord, finding_to_record, record_to_finding}
use sih.Findings.{band_counts}
use sih.Residue
use sih.Residue.{CoverageCertificate, ArtifactCoverage, save_coverage, get_coverage_certificate}
unfoldable pub use Types.*

module _ (h : Hashing) where
  pub record Store : Type 0 where
    pub scans : List Scan
    pub findings : List FindingRecord
    pub events : List (ScanEvent h.Detail)
    pub snapshots : List ScanSnapshot
    pub coverage : Residue.Store h

  -- `session.get(ScanRecord, scan_id)`
  unfoldable pub get_scan : String → Store → Option Scan
  get_scan scan_id st = find? (λ s. str_eq s.id scan_id) st.scans

  abbrev pub with_log : List (Record h) → Store → Store
  with_log log st = record st { coverage = record st.coverage { log = log } }

  unfoldable pub scan_entry : String → String → h.Detail → Entry h.Detail
  scan_entry action scan_id detail = record {
    actor = none;
    action = codes action;
    entity_type = codes "scan";
    entity_id = codes scan_id;
    detail = some detail;
  }

  -- `list_events`; `after` of 0 counts as none.
  unfoldable pub list_events : String → ℕ → Store → List (ScanEvent h.Detail)
  list_events scan_id after st =
      sort_by (λ a b. leb a.event_id b.event_id)
        (keep (λ e. str_eq e.scan_id scan_id && ltb after e.event_id) st.events)

  -- `count_findings` and `list_findings_page`. `may_stand` is the order of the ids; SQLite takes a
  -- negative offset for 0.
  unfoldable pub count_findings : String → Store → ℕ
  count_findings scan_id st = length (keep (λ r. str_eq r.scan_id scan_id) st.findings)

  unfoldable pub list_findings_page :
      (String → String → Bool) → Reason → String → ℤ → ℕ → Store → List Finding
  list_findings_page may_stand no_reason scan_id offset limit st =
      map (record_to_finding no_reason) (
        take limit (
          drop (pos_part offset) (
            sort_by (λ a b. may_stand a.id b.id)
              (keep (λ r. str_eq r.scan_id scan_id) st.findings))))

  -- The parts of the JSON objects that the store writes: `started` is `{"target": …, "status": …}`,
  -- `created` is `{"target": …, "findingCount": …}`, `final_payload` is `{"scanId": …,
  -- "findingCount": …}`; `hash_of` is the digest of a path or of the file there, and `path_before`
  -- the order of paths.
  pub record Texts : Type 0 where
    pub started : String → ScanStatus → h.Detail
    pub created : String → ℕ → h.Detail
    pub final_payload : String → ℕ → h.Detail
    pub recorded : CoverageCertificate → h.Detail
    pub snapped : String → String → h.Detail
    pub hash_of : String → String
    pub path_before : String → String → Bool

  module _ (t : Texts) (current : Bytes) (now : ℕ) where
    -- `create_initial_scan`; `scan_id` is the id that is drawn or given, `path` is `payload.path`.
    unfoldable pub create_initial_scan :
        String → Option String → Option String → Policy → Store → Scan × Store
    create_initial_scan scan_id path target_override policy st =
        let scan : Scan = record {
          id = scan_id;
          target = or_text target_override (or_text path "uploaded-artifact");
          status = scanning;
          stats = some no_stats;
          bands = no_bands;
          policy_id = policy.id;
          crqc_years = policy.crqc_years;
          started_at = now;
          finished_at = none;
          bundle_hash = none;
        } in
        (
          scan,
          with_log
              (log_audit h current
                (scan_entry "scan.start" scan_id (t.started scan.target scan.status))
                (st.coverage.log))
              (record st { scans = st.scans ++ scan ∷ [] }),
        )

    -- Deletes a scan that is there, with its findings.
    unfoldable pub delete_scan : String → Store → Store
    delete_scan scan_id st = elim (get_scan scan_id st) [
      | none ↦ st
      | some s ↦ record st {
        scans = keep (λ r. not (str_eq r.id scan_id)) st.scans;
        findings = keep (λ r. not (str_eq r.scan_id scan_id)) st.findings;
      }
    ]

    -- The first transaction of `create_scan_from_result`, on the store without the scan.
    unfoldable pub insert_scan : Scan → List Finding → List (EventType × h.Detail) → Store → Store
    insert_scan scan fs events st =
        with_log
          (log_audit h current
            (scan_entry "scan.create" scan.id (t.created scan.target (length fs))) st.coverage.log)
          (record st {
            scans = st.scans ++ scan ∷ [];
            findings = st.findings ++ map (λ f. finding_to_record f scan.id) fs;
            events = st.events ++ number_events scan.id 1 events;
          })

    abbrev has_path : Finding → Bool
    has_path f = not (str_eq f.location.path "")

    -- `sorted({f.location.path …})`
    unfoldable pub unique_paths : List Finding → List String
    unique_paths [] = []
    unique_paths (f ∷ fs) =
        let rest = unique_paths fs in
        if has_path f && not (any (str_eq f.location.path) rest)
        then sort_by t.path_before (f.location.path ∷ rest)
        else rest

    abbrev pub on_path : String → Finding → Bool
    on_path p f = has_path f && str_eq f.location.path p

    -- The coverage of one path: 10 units of mass for each finding, all attributed.
    unfoldable pub path_coverage : String → List Finding → String → ArtifactCoverage
    path_coverage scan_id fs p =
        let mass = sum_by (λ f. 10) (keep (on_path p) fs) in
        record {
          scan_id = scan_id;
          artifact_hash = t.hash_of p;
          path = p;
          total_mass = mass;
          attributed = mass;
          excluded_mass = 0;
          residue = 0;
          coverage_ratio = record { num = 1; den = 1 };
        }

    abbrev positive_or : ℕ → ℕ → ℕ
    positive_or n default = if ltb 0 n then n else default

    -- The certificate of `create_scan_from_result`; a result has none of its own.
    unfoldable pub result_certificate :
        String → ScanResult → List ArtifactCoverage → CoverageCertificate
    result_certificate scan_id result coverages =
        let attributed = sum_by (λ (c : ArtifactCoverage). c.attributed) coverages in
        record {
          scan_id = scan_id;
          artifact_count = positive_or (length coverages) result.stats.files;
          total_mass = positive_or attributed 100;
          attributed_mass = positive_or attributed 100;
          excluded_mass = 0;
          residue_mass = 0;
          coverage_ratio = record { num = 1; den = 1 };
          residue_cluster_count = 0;
          computed_at = now;
        }

    unfoldable pub result_scan :
        String
        → Option String
        → Option String
        → ScanResult
        → Policy
        → ScanStatus
        → Option String
        → Scan
    result_scan scan_id path target_override result policy status bundle_hash = record {
      id = scan_id;
      target = or_text target_override (or_text path "uploaded-artifact");
      status = status;
      stats = some result.stats;
      bands = band_counts result.findings;
      policy_id = policy.id;
      crqc_years = policy.crqc_years;
      started_at = now;
      finished_at = some now;
      bundle_hash = bundle_hash;
    }

    -- `create_scan_from_result`
    unfoldable pub create_scan_from_result :
        String
        → Option String
        → Option String
        → ScanResult
        → Policy
        → ScanStatus
        → List (EventType × h.Detail)
        → Option String
        → Store
        → Scan × Store
    unfolding delete_scan insert_scan
    create_scan_from_result scan_id path target_override result policy status events bundle_hash
          st =
        let scan = result_scan scan_id path target_override result policy status bundle_hash in
        let all_events =
          events ++ (final_type status, t.final_payload scan_id (length result.findings)) ∷ [] in
        let stored = insert_scan scan result.findings all_events (delete_scan scan_id st) in
        let coverages =
          map (path_coverage scan_id result.findings) (unique_paths result.findings) in
        (
          scan,
          record stored {
            coverage =
                save_coverage h t.recorded current now scan_id
                  (result_certificate scan_id result coverages) coverages [] path stored.coverage;
          },
        )

    -- `create_snapshot`; `snapshot_id` is the id that is drawn.
    unfoldable pub create_snapshot :
        String → String → Scan → List Finding → Store → ScanSnapshot × Store
    create_snapshot snapshot_id target_id scan fs st =
        let cert = get_coverage_certificate scan.id st.coverage.certificates in
        let snapshot : ScanSnapshot = record {
          id = snapshot_id;
          target_id = target_id;
          scan_id = scan.id;
          taken_at = now;
          bands = scan.bands;
          total_findings = length fs;
          stats = elim scan.stats [ none ↦ no_stats | some s ↦ s ];
          coverage_ratio = elim cert [ none ↦ none | some c ↦ some c.coverage_ratio ];
          residue_mass = elim cert [ none ↦ none | some c ↦ some c.residue_mass ];
        } in
        let entry : Entry h.Detail = record {
          actor = none;
          action = codes "snapshot.create";
          entity_type = codes "snapshot";
          entity_id = codes snapshot_id;
          detail = some (t.snapped target_id scan.id);
        } in
        (
          snapshot,
          with_log (log_audit h current entry st.coverage.log)
              (record st { snapshots = st.snapshots ++ snapshot ∷ [] }),
        )
