-- ===== src/Estate.antt =====
-- Scans and targets in the store (backend/api/store.py): the recovery of interrupted scans, and
-- how targets are created, changed and deleted.
pub mod Recovery
pub mod Targets
pub mod Coverage
mod Tests
use sih.Prelude.{
  ℕ, ◌≡◌, Bool, true, false, not, ◌&&◌, ◌||◌, Option, none, some, String, List, [], ◌∷◌, ◌++◌, map,
  any, keep, find?, if◌then◌else◌,
}
use sih.Prelude.Text.{str_eq, codes}
use sih.Prelude.Bytes.{Bytes}
use sih.Model.Scans.{ScanStatus, queued, ingesting, scanning, scoring, done, failed, Scan}
use sih.Audit.{Hashing, Record, Entry, log_audit}

-- The statuses of `non_terminal`.
unfoldable pub is_running : ScanStatus → Bool
is_running queued = true
is_running ingesting = true
is_running scanning = true
is_running scoring = true
is_running done = false
is_running failed = false

pub data TargetKind : Type 0 where
  repo path endpoint : TargetKind

pub record TargetRecord : Type 0 where
  pub id : String
  pub name : String
  pub kind : TargetKind
  pub uri : String
  pub policy_id : String
  pub schedule : String
  pub enabled : Bool
  pub last_scan_id : Option String
  pub last_scan_at : Option ℕ
  pub created_at : ℕ

pub record TargetCreate : Type 0 where
  pub name : String
  pub kind : TargetKind
  pub uri : String
  pub policy_id : String
  pub schedule : String
  pub enabled : Bool

pub record TargetPatch : Type 0 where
  pub name : Option String
  pub policy_id : Option String
  pub schedule : Option String
  pub enabled : Option Bool

abbrev pub given_or : {A : Type 0} → Option A → A → A
given_or none old = old
given_or (some new) old = new

-- The assignments of `patch_target`.
unfoldable pub patched_target : TargetPatch → TargetRecord → TargetRecord
patched_target p r = record r {
  name = given_or p.name r.name;
  policy_id = given_or p.policy_id r.policy_id;
  schedule = given_or p.schedule r.schedule;
  enabled = given_or p.enabled r.enabled;
}

unfoldable pub get_target : String → List TargetRecord → Option TargetRecord
get_target target_id rows = find? (λ r. str_eq r.id target_id) rows

-- `UPDATE targets … WHERE id = …`
unfoldable pub update_target :
    String → (TargetRecord → TargetRecord) → List TargetRecord → List TargetRecord
update_target target_id change [] = []
update_target target_id change (r ∷ rows) =
    (if str_eq r.id target_id then change r else r) ∷ update_target target_id change rows

abbrev pub scanned : String → ℕ → TargetRecord → TargetRecord
scanned scan_id scan_at r = record r { last_scan_id = some scan_id; last_scan_at = some scan_at }

module _ (h : Hashing) where
  pub record Store : Type 0 where
    pub scans : List Scan
    pub targets : List TargetRecord
    pub log : List (Record h)

  -- An entry of the log about a target or a scan, by the actor of the request.
  unfoldable pub entry : String → String → String → Option h.Detail → Entry h.Detail
  entry action entity_type entity_id detail = record {
    actor = none;
    action = codes action;
    entity_type = codes entity_type;
    entity_id = codes entity_id;
    detail = detail;
  }

  -- `recovery` is the detail `{"previous_status": …, "reason": …}`.
  module _ (recovery : ScanStatus → h.Detail) (current : Bytes) (now : ℕ) where
    -- The body of the loop on a row: the row, and the log if it is interrupted.
    unfoldable pub recover_row : Scan → Scan
    recover_row r =
        if is_running r.status then record r { status = failed; finished_at = some now } else r

    unfoldable pub log_recovery : List Scan → List (Record h) → List (Record h)
    log_recovery [] log = log
    log_recovery (r ∷ rows) log =
        log_recovery rows
          (log_audit h current (entry "scan.recovery" "scan" r.id (some (recovery r.status))) log)

    -- The ids that are recovered, and the store.
    unfoldable pub recover_interrupted_scans : Store → List String × Store
    recover_interrupted_scans st =
        let interrupted = keep (λ r. is_running r.status) st.scans in
        (
          map (λ r. r.id) interrupted,
          record st { scans = map recover_row st.scans; log = log_recovery interrupted st.log },
        )

  -- `created` is the detail `{"name": …}`.
  module _ (created : String → h.Detail) (current : Bytes) where
    -- `target_id` is the id that is drawn.
    unfoldable pub create_target : String → ℕ → TargetCreate → Store → TargetRecord × Store
    create_target target_id now p st =
        let target : TargetRecord = record {
          id = target_id;
          name = p.name;
          kind = p.kind;
          uri = p.uri;
          policy_id = p.policy_id;
          schedule = p.schedule;
          enabled = p.enabled;
          last_scan_id = none;
          last_scan_at = none;
          created_at = now;
        } in
        (
          target,
          record st {
            targets = st.targets ++ target ∷ [];
            log =
                log_audit h current
                  (entry "target.create" "target" target_id (some (created p.name))) st.log;
          },
        )

    unfoldable pub patch_target : String → TargetPatch → Store → Option TargetRecord × Store
    patch_target target_id p st = elim (get_target target_id st.targets) [
      | none ↦ (none, st)
      | some r ↦ (
        some (patched_target p r),
        record st {
          targets = update_target target_id (patched_target p) st.targets;
          log = log_audit h current (entry "target.patch" "target" target_id none) st.log;
        },
      )
    ]

    unfoldable pub delete_target : String → Store → Bool × Store
    delete_target target_id st = elim (get_target target_id st.targets) [
      | none ↦ (false, st)
      | some r ↦ (
        true,
        record st {
          targets = keep (λ s. not (str_eq s.id target_id)) st.targets;
          log = log_audit h current (entry "target.delete" "target" target_id none) st.log;
        },
      )
    ]

    unfoldable pub update_target_last_scan : String → String → ℕ → Store → Store
    update_target_last_scan target_id scan_id scan_at st = record st {
      targets = update_target target_id (scanned scan_id scan_at) st.targets;
    }
