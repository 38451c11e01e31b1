-- ===== src/Alerts.antt =====
-- Alerts (backend/api/alerts/rules.py, backend/api/alerts/dispatcher.py, and create_alert of
-- backend/api/store.py).
pub mod Critical
mod Tests
use sih.Prelude.{
  ℕ, suc, ◌+◌, ◌-◌, ◌*◌, ◌≡◌, Bool, true, false, not, ◌&&◌, ◌||◌, Option, none, some, String, List,
  [], ◌∷◌, ◌++◌, map, any, find?, length, ltb, leb, ◌==◌, if◌then◌else◌,
}
use sih.Prelude.Int.{ℤ, pos, negsuc, ltb_ℤ, ◌-ℤ◌}
use sih.Prelude.Text.{str_eq, codes}
use sih.Prelude.Bytes.{Bytes, bytes_eq, contains}
use sih.Model.{Finding, RiskBand, critical, high, band_eq, Fraction, at_least}
use sih.Risk.Factors.{round_to}
use sih.Audit.{Hashing, Record, Entry, log_audit}
use sih.Drift.{Drift, Delta}

pub data AlertType : Type 0 where
  new_critical cert_expiring drift probe_downgrade residue_rise : AlertType

-- `Alert`; the message, which shows the values of the rule, is left out.
pub record Alert : Type 0 where
  pub id : String
  pub type : AlertType
  pub target_id : String
  pub finding_id : Option String
  pub severity : RiskBand
  pub created_at : ℕ
  pub acknowledged : Bool

-- `band == RiskBand.CRITICAL or score >= 60.0`; without a risk neither holds.
unfoldable pub is_critical : Finding → Bool
is_critical f = elim f.risk [
  | none ↦ false
  | some r ↦ band_eq r.band critical || at_least r.score 60
]

-- What the rules look for before they make an alert: its type, finding and severity.
pub record Draft : Type 0 where
  pub type : AlertType
  pub finding_id : Option String
  pub severity : RiskBand

unfoldable pub critical_drafts : AlertType → List Finding → List Draft
critical_drafts type [] = []
critical_drafts type (f ∷ fs) =
    let rest = critical_drafts type fs in
    if is_critical f
    then record { type = type; finding_id = some f.id; severity = critical } ∷ rest
    else rest

-- `netRiskDelta`, which is rounded to 2 places, as far as it is above 0.
unfoldable pub risen : Delta → Fraction
risen d = elim d.num [
  | pos n ↦ round_to 100 (record { num = n; den = d.den })
  | negsuc n ↦ record { num = 0; den = 1 }
]

unfoldable pub regression_drafts : Delta → List Draft
regression_drafts d =
    if ltb 0 (risen d).num
    then record {
      type = drift;
      finding_id = none;
      severity = if at_least (risen d) 20 then critical else high;
    }
      ∷ []
    else []

-- `check_drift_alerts`: the regression counts if no added finding is critical.
unfoldable pub drift_drafts : Drift → List Draft
drift_drafts d = elim (critical_drafts drift d.added) [
  | [] ↦ regression_drafts d.summary.net_risk_delta
  | a ∷ as_found ↦ a ∷ as_found
]

-- `check_cert_expiring`, in seconds; `expiry` is the date that the text parses to, if it does.
unfoldable pub expiry_drafts : Option ℤ → ℤ → Option String → List Draft
expiry_drafts none now finding_id = []
expiry_drafts (some expiry) now finding_id =
    if ltb_ℤ (expiry -ℤ now) (pos 2592000)
    then record {
      type = cert_expiring;
      finding_id = finding_id;
      severity = if ltb_ℤ (pos 604800) (expiry -ℤ now) then high else critical;
    }
      ∷ []
    else []

abbrev pub insecure_patterns : List Bytes
insecure_patterns =
    codes "rc4"
    ∷ codes "3des"
    ∷ codes "des"
    ∷ codes "md5"
    ∷ codes "null"
    ∷ codes "export"
    ∷ codes "anon"
    ∷ codes "cbc"
    ∷ codes "group1"
    ∷ codes "ssh-rsa"
    ∷ codes "arcfour"
    ∷ []

abbrev pub insecure_protocols : List Bytes
insecure_protocols =
    codes "sslv2"
    ∷ codes "sslv3"
    ∷ codes "tlsv1.0"
    ∷ codes "tlsv1.1"
    ∷ codes "tls 1.0"
    ∷ codes "tls 1.1"
    ∷ []

-- `check_probe_downgrade`, on the three texts in lower case.
unfoldable pub downgrade_drafts : Bytes → Bytes → Bytes → List Draft
downgrade_drafts proto cipher kex =
    if any (bytes_eq proto) insecure_protocols
      || (any (λ p. contains p cipher) insecure_patterns
          || any (λ p. contains p kex) insecure_patterns)
    then record { type = probe_downgrade; finding_id = none; severity = critical } ∷ []
    else []

-- `check_residue_rise`
unfoldable pub residue_drafts : ℕ → Option ℕ → Option ℕ → List Draft
residue_drafts threshold none to = []
residue_drafts threshold (some from) none = []
residue_drafts threshold (some from) (some to) =
    if ltb (from + threshold) to
    then record {
      type = residue_rise;
      finding_id = none;
      severity = if ltb (to - from) 50 then high else critical;
    }
      ∷ []
    else []

module _ (h : Hashing) where
  -- The alerts, the audit log, the webhook's calls, and how many ids were drawn.
  pub record Store : Type 0 where
    pub alerts : List Alert
    pub log : List (Record h)
    pub sent : List Alert
    pub drawn : ℕ

  -- `draw` gives the ids, `now` is the time of the run, which the source reads anew for each alert, `detail` is `{"type": …, "severity": …}`, and `webhook` says whether
  -- `ALERT_WEBHOOK_URL` is set.
  module _ (draw : ℕ → String) (detail : AlertType → RiskBand → h.Detail) (current : Bytes)
      (webhook : Bool) (now : ℕ) where
    unfoldable pub create_entry : Alert → Entry h.Detail
    create_entry a = record {
      actor = none;
      action = codes "alert.create";
      entity_type = codes "alert";
      entity_id = codes a.id;
      detail = some (detail a.type a.severity);
    }

    -- `store.create_alert`
    unfoldable pub create_alert : Alert → Store → Store
    create_alert a st = record st {
      alerts = st.alerts ++ a ∷ [];
      log = log_audit h current (create_entry a) st.log;
    }

    -- `dispatch_alert`
    unfoldable pub dispatch_alert : Alert → Store → Store
    unfolding create_alert
    dispatch_alert a st =
        let saved = create_alert a st in
        if webhook then record saved { sent = saved.sent ++ a ∷ [] } else saved

    unfoldable pub alert_of : String → ℕ → Draft → Alert
    alert_of target_id n d = record {
      id = draw n;
      type = d.type;
      target_id = target_id;
      finding_id = d.finding_id;
      severity = d.severity;
      created_at = now;
      acknowledged = false;
    }

    -- The alerts of a rule, made and dispatched one after the other.
    unfoldable pub dispatch_all : String → List Draft → Store → List Alert × Store
    dispatch_all target_id [] st = ([], st)
    dispatch_all target_id (d ∷ ds) st =
        let a = alert_of target_id st.drawn d in
        let (rest, st') =
          dispatch_all target_id ds (dispatch_alert a (record st { drawn = suc st.drawn })) in
        (a ∷ rest, st')

    unfoldable pub check_new_critical_findings : String → List Finding → Store → List Alert × Store
    check_new_critical_findings target_id fs =
        dispatch_all target_id (critical_drafts new_critical fs)

    unfoldable pub check_drift_alerts : String → Drift → Store → List Alert × Store
    check_drift_alerts target_id d = dispatch_all target_id (drift_drafts d)

    -- `evaluate_scan_alerts`
    unfoldable pub evaluate_scan_alerts : String → List Finding → Store → List Alert × Store
    evaluate_scan_alerts = check_new_critical_findings
