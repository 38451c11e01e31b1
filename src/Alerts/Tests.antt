-- ===== src/Alerts/Tests.antt =====
-- A run of the alerts of a scan.
use sih.Prelude.{ℕ, ◌≡◌, refl, ◌∷◌, [], String, none, some, List, map, keep, true}
use sih.Prelude.Text.{codes}
use sih.Prelude.Bytes.{Bytes}
use sih.Model.{Finding, RiskBand, band_eq}
use sih.Model.Samples.{sample_finding}
use sih.Audit.{verify_audit_log_integrity}
use sih.Audit.Toy.{toy, toy_width}
use sih.Alerts.{AlertType, is_critical, Store, evaluate_scan_alerts}
use sih.Alerts.Critical.{evaluate_scan_alerts_lem}

abbrev draw : ℕ → String
draw n = "alt_1"

abbrev detail : AlertType → RiskBand → Bytes
detail type band = codes "critical"

-- One finding is critical, the other has no risk.
abbrev found : List Finding
found = record sample_finding { risk = none } ∷ sample_finding ∷ []

abbrev empty : Store toy
empty = record { alerts = []; log = []; sent = []; drawn = 0 }

one_is_critical : map (λ f. some f.id) (keep is_critical found) ≡ some "f1" ∷ []
unfolding is_critical band_eq
one_is_critical = refl

evaluate_scan_alerts_lem_run :
    let (made, st') =
      evaluate_scan_alerts toy draw detail (codes "system") true 5 "t1" found empty in
    (map (λ a. a.finding_id) made ≡ map (λ f. some f.id) (keep is_critical found))
    × (st'.alerts ≡ made)
    × (verify_audit_log_integrity toy st'.log ≡ verify_audit_log_integrity toy [])
evaluate_scan_alerts_lem_run =
    evaluate_scan_alerts_lem toy draw detail (codes "system") true 5 toy_width "t1" found empty
