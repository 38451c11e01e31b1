-- ===== src/Scans/Types.antt =====
-- The data of scans (backend/api/models.py, backend/engine/models.py and the events of
-- backend/api/db_models.py).
use sih.Prelude.{ℕ, suc, Option, none, some, String, List, [], ◌∷◌, if◌then◌else◌}
use sih.Prelude.Text.{str_eq}
use sih.Model.Scans.{ScanStatus, failed, ScanStats, no_stats}
use sih.Model.{Finding}

-- `ScanResult`: it has no certificate and no clusters of its own.
pub record ScanResult : Type 0 where
  pub findings : List Finding
  pub stats : ScanStats

abbrev pub no_result : ScanResult
no_result = record { findings = []; stats = no_stats }

-- The event types `error` and `done`, and those of the scanner.
pub data EventType : Type 0 where
  error finished : EventType
  other : String → EventType

pub record ScanEvent {ℓ} (Payload : Type ℓ) : Type ℓ where
  pub scan_id : String
  pub event_id : ℕ
  pub type : EventType
  pub payload : Payload

-- `a or b` of texts
unfoldable pub or_text : Option String → String → String
or_text none default = default
or_text (some s) default = if str_eq s "" then default else s

-- `enumerate(all_events, start=1)`
unfoldable pub number_events {ℓ} :
    {P : Type ℓ} → String → ℕ → List (EventType × P) → List (ScanEvent P)
number_events scan_id i [] = []
number_events scan_id i ((type, payload) ∷ es) =
    record { scan_id = scan_id; event_id = i; type = type; payload = payload }
    ∷ number_events scan_id (suc i) es

abbrev pub final_type : ScanStatus → EventType
final_type failed = error
final_type _ = finished
