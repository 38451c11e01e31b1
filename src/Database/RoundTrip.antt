-- ===== src/Database/RoundTrip.antt =====
-- Storing a finding and reading it back (backend/api/db.py).
use sih.Prelude.{◌≡◌, refl, Option, none, some, String}
use sih.Model.{Finding, Risk, Reason}
use sih.Database.{finding_to_record, record_to_finding, record_risk}

risk_back :
    (reason : Reason) (f : Finding) (scan_id : String)
    → record_risk reason (finding_to_record f scan_id) ≡ f.risk
unfolding record_risk finding_to_record
risk_back reason f scan_id = risk_by_case f.risk
  where
    risk_by_case :
        (r : Option Risk)
        → record_risk reason (finding_to_record (record f { risk = r }) scan_id) ≡ r
    risk_by_case none = refl
    risk_by_case (some r) = refl

pub record_to_finding-finding_to_record :
    (no_reason : Reason) (f : Finding) (scan_id : String)
    → record_to_finding no_reason (finding_to_record f scan_id) ≡ f
unfolding record_to_finding finding_to_record
record_to_finding-finding_to_record no_reason f scan_id =
    λ i. record f { risk = risk_back no_reason f scan_id i }
