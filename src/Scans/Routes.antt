-- ===== src/Scans/Routes.antt =====
-- The routes on scans (backend/api/routes/scans.py): starting a scan, the findings of a scan by
-- page, the plan and the events.
pub mod Paging
use sih.Prelude.{
  ℕ, zero, suc, ◌+◌, ◌≡◌, Bool, true, false, not, ◌&&◌, ◌||◌, Option, none, some, String, List, [],
  ◌∷◌, ◌++◌, map, keep, length, leb, if◌then◌else◌,
}
use sih.Prelude.Int.{ℤ, pos, ◌+ℤ◌, ltb_ℤ}
use sih.Prelude.Text.{str_eq}
use sih.Prelude.Bytes.{Bytes}
use sih.Prelude.Sort.{sort_by}
use sih.Model.Scans.{ScanStatus, done, failed, Scan}
use sih.Model.{Finding, Policy, RiskBand, critical, high, medium, low}
use sih.Model.Findings.{Reason, Location, Action}
use sih.Audit.{Hashing}
use sih.Drift.{list_findings}
use sih.Findings.{Query, FindingPage, filter_findings, paginate, offset_of}
use sih.Policies.{AssetCriticality, ScanCreate, resolve_policy}
use sih.Scans.{
  Store, ScanResult, no_result, EventType, ScanEvent, Texts, get_scan, list_events, count_findings,
  list_findings_page, create_initial_scan, create_scan_from_result, or_text,
}

-- What a run of the scanner gives: the events it reported, and a result or an exception.
pub record ScanRun (D : Type 0) : Type 0 where
  pub reported : List (EventType × D)
  pub result : Option ScanResult

abbrev pub status_of : Option ScanResult → ScanStatus
status_of none = failed
status_of (some r) = done

abbrev pub result_of : Option ScanResult → ScanResult
result_of none = no_result
result_of (some r) = r

-- A response with a body, or an error with its status.
pub data Response {ℓ} (A : Type ℓ) : Type ℓ where
  ok : A → Response A
  not_found bad_request : Response A

abbrev is_none : {A : Type 0} → Option A → Bool
is_none none = true
is_none (some a) = false

abbrev is_no_text : Option String → Bool
is_no_text none = true
is_no_text (some q) = str_eq q ""

-- No filter and no order is given; an empty `q` counts as none.
unfoldable pub is_unfiltered : Query → Bool
is_unfiltered query =
    is_none query.band
    && is_none query.family
    && is_none query.surface
    && is_none query.source
    && is_none query.min_confidence
    && is_none query.needs_review
    && is_no_text query.q
    && is_none query.sort

pub record PlanItem : Type 0 where
  pub finding_id : String
  pub band : RiskBand
  pub display_name : String
  pub location : Location
  pub action : Action
  pub target : Option String

unfoldable pub band_priority : RiskBand → ℕ
band_priority critical = 0
band_priority high = 1
band_priority medium = 2
band_priority low = 3

-- The items of findings with a risk and a recommendation.
unfoldable pub plan_items : List Finding → List PlanItem
plan_items [] = []
plan_items (f ∷ fs) =
    let rest = plan_items fs in
    elim f.risk [
      | none ↦ rest
      | some r ↦ elim f.recommendation [
        | none ↦ rest
        | some c ↦
            record {
              finding_id = f.id;
              band = r.band;
              display_name = f.display_name;
              location = f.location;
              action = c.action;
              target = c.target;
            }
            ∷ rest
      ]
    ]

module _ (h : Hashing) where
  -- `GET /scans/{scan_id}/findings`; `may_stand` is the order of ids and `lower` is `str.lower`.
  unfoldable pub get_findings :
      (String → String → Bool)
      → Reason
      → (Bytes → Bytes)
      → String
      → Query
      → Option ℤ
      → ℕ
      → Store h
      → Response FindingPage
  get_findings may_stand no_reason lower scan_id query cursor limit st =
      elim (get_scan h scan_id st) [
        | none ↦ not_found
        | some scan ↦
            if is_unfiltered query
            then ok (record {
              items = list_findings_page h may_stand no_reason scan_id (offset_of cursor) limit st;
              cursor =
                  (if ltb_ℤ (offset_of cursor +ℤ pos limit) (pos (count_findings h scan_id st))
                    then some (offset_of cursor +ℤ pos limit)
                    else none);
              total = count_findings h scan_id st;
            })
            else ok (
                paginate cursor limit
                  (filter_findings lower query (list_findings no_reason scan_id st.findings)))
      ]

  -- `GET /scans/{scan_id}/plan`. The sort is on the items, which have the bands of their findings.
  unfoldable pub get_plan : Reason → String → Store h → Response (List PlanItem)
  unfolding band_priority plan_items
  get_plan no_reason scan_id st = elim (get_scan h scan_id st) [
    | none ↦ not_found
    | some scan ↦ ok (
        sort_by (λ a b. leb (band_priority a.band) (band_priority b.band))
          (plan_items (list_findings no_reason scan_id st.findings)))
  ]

  -- The frames of the web socket for the events behind `after`.
  unfoldable pub scan_events : String → ℕ → Store h → Response (List (ScanEvent h.Detail))
  scan_events scan_id after st = elim (get_scan h scan_id st) [
    | none ↦ not_found
    | some scan ↦ ok (list_events h scan_id after st)
  ]

  -- The tables of policies and criticalities, the default policy, and the scanner on a path.
  pub record Scanner : Type 0 where
    pub default_policy : Policy
    pub policies : List Policy
    pub criticalities : List AssetCriticality
    pub exists : String → Bool
    pub run : String → Policy → ScanRun h.Detail

  module _ (t : Texts h) (current : Bytes) (now : ℕ) (s : Scanner) where
    -- The end of `create_scan` and `upload_scan`: the run of the scanner and its record.
    unfoldable pub run_and_store :
        String
        → Option String
        → Option String
        → Policy
        → Option String
        → ScanRun h.Detail
        → Store h
        → Scan × Store h
    run_and_store scan_id path target_override policy bundle_hash run st =
        create_scan_from_result h t current now scan_id path target_override (result_of run.result)
          policy (status_of run.result) run.reported bundle_hash st

    -- `POST /scans`; `scan_id` is the id that is drawn.
    unfoldable pub create_scan : String → ScanCreate → Store h → Response Scan × Store h
    unfolding run_and_store
    create_scan scan_id payload st =
        let path = or_text payload.path "" in
        if str_eq path "" || not (s.exists path)
        then (bad_request, st)
        else (let policy =
              resolve_policy s.default_policy s.policies s.criticalities payload none in
            let (initial, st₁) =
              create_initial_scan h t current now scan_id payload.path none policy st in
            let (scan, st₂) =
              run_and_store initial.id payload.path none policy none (s.run path policy) st₁ in
            (ok scan, st₂))

    -- `POST /scans/upload`; `ingested` is the digest of the bundle and the directory, or an
    -- IngestError.
    unfoldable pub upload_scan :
        String → String → ScanCreate → Option (String × String) → Store h → Response Scan × Store h
    unfolding run_and_store
    upload_scan scan_id filename payload ingested st =
        let policy = resolve_policy s.default_policy s.policies s.criticalities payload none in
        let (initial, st₁) =
          create_initial_scan h t current now scan_id (some filename) (some filename) policy st in
        elim ingested [
          | none ↦
              let (scan, st₂) =
                create_scan_from_result h t current now initial.id (some filename) none no_result
                  policy failed [] none st₁ in
              (bad_request, st₂)
          | some (bundle_hash, extract_dir) ↦
              let (scan, st₂) =
                run_and_store initial.id (some filename) (some filename) policy (some bundle_hash)
                  (s.run extract_dir policy) st₁ in
              (ok scan, st₂)
        ]
