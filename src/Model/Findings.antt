-- ===== src/Model/Findings.antt =====
-- Findings and their parts (backend/api/models.py). Texts that the program puts together for a
-- reader (reasons, actions) are data that hold the values put in.
use sih.Prelude.{ℕ, ◌*◌, ◌≤◌, Bool, Option, String, leb}
use sih.Prelude.Int.{ℤ}
use sih.Model.Enums.{
  Family, CryptoFunction, RiskBand, Exposure, Criticality, Surface, FindingSource, FindingKind,
  TriageStatus,
}

-- num / den
pub record Fraction : Type 0 where
  pub num : ℕ
  pub den : ℕ

-- `value >= n`
abbrev pub at_least : Fraction → ℕ → Bool
at_least q n = leb (n * q.den) q.num

abbrev pub IsAtMost : Fraction → Fraction → Type 0
IsAtMost p q = p.num * q.den ≤ q.num * p.den

-- The two texts of `reason`, with what the first one shows.
pub data Reason : Type 0 where
  by_formula : Option Family → CryptoFunction → Exposure → Criticality → ℤ → ℤ → ℕ → Reason
  private_key_floor : Reason

-- `Risk`: the four factors are in hundredths.
pub record Risk : Type 0 where
  pub score : Fraction
  pub band : RiskBand
  pub v : ℕ
  pub f : ℕ
  pub u : Fraction
  pub e : ℕ
  pub k : ℕ
  pub x : ℤ
  pub y : ℤ
  pub z : ℕ
  pub mosca_margin : ℤ
  pub reason : Reason
  pub classically_broken : Bool
  pub hndl : Bool
  pub needs_review : Bool

pub record Location : Type 0 where
  pub path : String
  pub line : Option ℕ
  pub offset : Option ℕ
  pub layer : Option String

-- `RiskCost`: the time is in hundredths of a millisecond.
pub record RiskCost : Type 0 where
  pub pk_bytes_delta : ℤ
  pub wire_bytes_delta : ℤ
  pub op_ms_delta : ℤ

-- The texts of `action`.
pub data Action : Type 0 where
  migrate_key_establishment migrate_signatures : String → Action
  replace_cipher replace_hash : Family → Action
  move_to_hmac_sha_256 verify_key_size : Action

pub record Recommendation : Type 0 where
  pub action : Action
  pub target : Option String
  pub cost : RiskCost

pub record Triage : Type 0 where
  pub status : TriageStatus
  pub note : Option String

pub record Finding : Type 0 where
  pub id : String
  pub kind : FindingKind
  pub surface : Surface
  pub family : Option Family
  pub display_name : String
  pub key_size : Option ℕ
  pub mode : Option String
  pub curve : Option String
  pub function : CryptoFunction
  pub location : Location
  pub symbol : String
  pub snippet : String
  pub source : FindingSource
  pub confidence : ℕ
  pub risk : Option Risk
  pub recommendation : Option Recommendation
  pub triage : Triage
  pub negotiated : Option Bool
