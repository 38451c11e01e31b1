-- ===== src/Database.antt =====
-- The table of findings and its conversions (backend/api/db.py, backend/api/db_models.py). A
-- column of an enumeration holds the text of a value, and is modelled by the value.
pub mod RoundTrip
pub mod Rescore
use sih.Prelude.{ℕ, Bool, true, false, Option, none, some, String, List}
use sih.Prelude.Int.{ℤ, pos}
use sih.Model.{
  Family, FindingKind, Surface, CryptoFunction, FindingSource, RiskBand, TriageStatus, Fraction,
  Reason, Risk, Location, Recommendation, Triage, Finding, private_key_floor,
}

pub record FindingRecord : Type 0 where
  pub id : String
  pub scan_id : String
  pub kind : FindingKind
  pub surface : Surface
  pub family : Option Family
  pub display_name : String
  pub key_size : Option ℕ
  pub mode : Option String
  pub curve : Option String
  pub function : CryptoFunction
  pub location_path : String
  pub location_line : Option ℕ
  pub location_offset : Option ℕ
  pub location_layer : Option String
  pub symbol : String
  pub snippet : String
  pub source : FindingSource
  pub confidence : ℕ
  pub risk_score : Option Fraction
  pub risk_band : Option RiskBand
  pub risk_v : Option ℕ
  pub risk_f : Option ℕ
  pub risk_u : Option Fraction
  pub risk_e : Option ℕ
  pub risk_k : Option ℕ
  pub risk_x : Option ℤ
  pub risk_y : Option ℤ
  pub risk_z : Option ℕ
  pub risk_mosca_margin : Option ℤ
  pub risk_reason : Option Reason
  pub risk_classically_broken : Option Bool
  pub risk_hndl : Option Bool
  pub risk_needs_review : Option Bool
  pub recommendation : Option Recommendation
  pub triage_status : TriageStatus
  pub triage_note : Option String
  pub negotiated : Option Bool

-- `risk.… if risk else None`
abbrev pub column : {A : Type 0} → (Risk → A) → Option Risk → Option A
column f none = none
column f (some r) = some (f r)

-- `rec.… or default`: a number 0, a text "" and false are their own defaults.
abbrev pub or_else : {A : Type 0} → Option A → A → A
or_else none default = default
or_else (some a) default = a

unfoldable pub finding_to_record : Finding → String → FindingRecord
finding_to_record finding scan_id =
    let risk = finding.risk in
    record {
      id = finding.id;
      scan_id = scan_id;
      kind = finding.kind;
      surface = finding.surface;
      family = finding.family;
      display_name = finding.display_name;
      key_size = finding.key_size;
      mode = finding.mode;
      curve = finding.curve;
      function = finding.function;
      location_path = finding.location.path;
      location_line = finding.location.line;
      location_offset = finding.location.offset;
      location_layer = finding.location.layer;
      symbol = finding.symbol;
      snippet = finding.snippet;
      source = finding.source;
      confidence = finding.confidence;
      risk_score = column (λ r. r.score) risk;
      risk_band = column (λ r. r.band) risk;
      risk_v = column (λ r. r.v) risk;
      risk_f = column (λ r. r.f) risk;
      risk_u = column (λ r. r.u) risk;
      risk_e = column (λ r. r.e) risk;
      risk_k = column (λ r. r.k) risk;
      risk_x = column (λ r. r.x) risk;
      risk_y = column (λ r. r.y) risk;
      risk_z = column (λ r. r.z) risk;
      risk_mosca_margin = column (λ r. r.mosca_margin) risk;
      risk_reason = column (λ r. r.reason) risk;
      risk_classically_broken = column (λ r. r.classically_broken) risk;
      risk_hndl = column (λ r. r.hndl) risk;
      risk_needs_review = column (λ r. r.needs_review) risk;
      recommendation = finding.recommendation;
      triage_status = finding.triage.status;
      triage_note = finding.triage.note;
      negotiated = finding.negotiated;
    }

abbrev pub nothing : Fraction
nothing = record { num = 0; den = 1 }

-- The risk of a row with a score and a band. `no_reason` is the empty text.
unfoldable pub risk_of_record : Reason → FindingRecord → Fraction → RiskBand → Risk
risk_of_record no_reason rec score band = record {
  score = score;
  band = band;
  v = or_else rec.risk_v 0;
  f = or_else rec.risk_f 0;
  u = or_else rec.risk_u nothing;
  e = or_else rec.risk_e 0;
  k = or_else rec.risk_k 0;
  x = or_else rec.risk_x (pos 0);
  y = or_else rec.risk_y (pos 0);
  z = or_else rec.risk_z 0;
  mosca_margin = or_else rec.risk_mosca_margin (pos 0);
  reason = or_else rec.risk_reason no_reason;
  classically_broken = or_else rec.risk_classically_broken false;
  hndl = or_else rec.risk_hndl false;
  needs_review = or_else rec.risk_needs_review false;
}

unfoldable pub record_risk : Reason → FindingRecord → Option Risk
unfolding risk_of_record
record_risk no_reason rec = elim rec.risk_score [
  | none ↦ none
  | some score ↦ elim rec.risk_band [
    | none ↦ none
    | some band ↦ some (risk_of_record no_reason rec score band)
  ]
]

unfoldable pub record_to_finding : Reason → FindingRecord → Finding
unfolding record_risk
record_to_finding no_reason rec = record {
  id = rec.id;
  kind = rec.kind;
  surface = rec.surface;
  family = rec.family;
  display_name = rec.display_name;
  key_size = rec.key_size;
  mode = rec.mode;
  curve = rec.curve;
  function = rec.function;
  location = record {
    path = rec.location_path;
    line = rec.location_line;
    offset = rec.location_offset;
    layer = rec.location_layer;
  };
  symbol = rec.symbol;
  snippet = rec.snippet;
  source = rec.source;
  confidence = rec.confidence;
  risk = record_risk no_reason rec;
  recommendation = rec.recommendation;
  triage = record { status = rec.triage_status; note = rec.triage_note };
  negotiated = rec.negotiated;
}
