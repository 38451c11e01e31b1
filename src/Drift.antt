-- ===== src/Drift.antt =====
-- The difference of two scans of a target (`_finding_identity` and `calculate_drift` of
-- backend/api/store.py).
pub mod Keys
pub mod Changes
pub mod Same
mod Tests
use sih.Prelude.{
  ℕ, ◌+◌, ◌*◌, ◌≡◌, Bool, true, false, not, ◌&&◌, Option, none, some, String, List, [], ◌∷◌, map,
  keep, any, find?, length, ◌==◌, if◌then◌else◌,
}
use sih.Prelude.Int.{ℤ, pos, ◌-ℤ◌}
use sih.Prelude.Text.{str_eq}
use sih.Model.Scans.{ScanSnapshot}
use sih.Model.{
  Finding, Fraction, Reason, RiskBand, low, band_eq, CryptoFunction, keygen, encrypt, decrypt, sign,
  verify, digest, tag, keyderive, unknown,
}
use sih.Findings.Names.{family_name}
use sih.Database.{FindingRecord, record_to_finding}

unfoldable pub function_name : CryptoFunction → String
function_name keygen = "keygen"
function_name encrypt = "encrypt"
function_name decrypt = "decrypt"
function_name sign = "sign"
function_name verify = "verify"
function_name digest = "digest"
function_name tag = "tag"
function_name keyderive = "keyderive"
function_name unknown = "unknown"

-- The tuple that `_finding_identity` returns.
pub record Identity : Type 0 where
  pub path : String
  pub line : Option ℕ
  pub display_name : String
  pub family : Option String
  pub function : String
  pub symbol : String
  pub key_size : Option ℕ
  pub curve : Option String

abbrev pub name_of : {A : Type 0} → (A → String) → Option A → Option String
name_of name none = none
name_of name (some a) = some (name a)

unfoldable pub finding_identity : Finding → Identity
finding_identity f = record {
  path = f.location.path;
  line = f.location.line;
  display_name = f.display_name;
  family = name_of family_name f.family;
  function = function_name f.function;
  symbol = f.symbol;
  key_size = f.key_size;
  curve = f.curve;
}

unfoldable pub num_eq : Option ℕ → Option ℕ → Bool
num_eq none none = true
num_eq none (some n) = false
num_eq (some m) none = false
num_eq (some m) (some n) = m == n

unfoldable pub text_eq : Option String → Option String → Bool
text_eq none none = true
text_eq none (some t) = false
text_eq (some s) none = false
text_eq (some s) (some t) = str_eq s t

unfoldable pub same_identity : Identity → Identity → Bool
same_identity a b =
    str_eq a.path b.path
    && (num_eq a.line b.line
        && (str_eq a.display_name b.display_name
            && (text_eq a.family b.family
                && (str_eq a.function b.function
                    && (str_eq a.symbol b.symbol
                        && (num_eq a.key_size b.key_size && text_eq a.curve b.curve))))))

-- A dictionary of findings by identity: its entries in order.
abbrev pub FindingMap : Type 0
FindingMap = List (Identity × Finding)

-- `map[key] = f`: a key that is there keeps its place and gets the new finding.
unfoldable pub put : Identity → Finding → FindingMap → FindingMap
put k f [] = (k, f) ∷ []
put k f (e ∷ m) = let rest = put k f m in if same_identity k e.0 then (e.0, f) ∷ m else e ∷ rest

unfoldable pub index_from : FindingMap → List Finding → FindingMap
index_from m [] = m
index_from m (f ∷ fs) = index_from (put (finding_identity f) f m) fs

-- `{_finding_identity(f): f for f in fs}`
unfoldable pub index : List Finding → FindingMap
index = index_from []

unfoldable pub has_key : Identity → FindingMap → Bool
has_key k m = any (λ e. same_identity k e.0) m

unfoldable pub lookup : Identity → FindingMap → Option Finding
lookup k m = elim (find? (λ e. same_identity k e.0) m) [ none ↦ none | some e ↦ some e.1 ]

-- The entries of the second map that the first one has no key for.
unfoldable pub missing_from : FindingMap → FindingMap → List Finding
missing_from base m = map (λ e. e.1) (keep (λ e. not (has_key e.0 base)) m)

pub record DriftChangedItem : Type 0 where
  pub finding : Finding
  pub from_band : RiskBand
  pub to_band : RiskBand

-- `f.risk.band if f.risk else RiskBand.LOW`
unfoldable pub band_or_low : Finding → RiskBand
band_or_low f = elim f.risk [ none ↦ low | some r ↦ r.band ]

-- The `else` branch of the loop over `to_map`.
unfoldable pub changed_items : FindingMap → FindingMap → List DriftChangedItem
changed_items base [] = []
changed_items base (e ∷ m) =
    let rest = changed_items base m in
    elim (lookup e.0 base) [
      | none ↦ rest
      | some f ↦
          if band_eq (band_or_low f) (band_or_low e.1)
          then rest
          else record { finding = e.1; from_band = band_or_low f; to_band = band_or_low e.1 } ∷ rest
    ]

unfoldable pub add_fractions : Fraction → Fraction → Fraction
add_fractions p q = record { num = p.num * q.den + q.num * p.den; den = p.den * q.den }

-- `sum(f.risk.score for f in fs if f.risk)`
unfoldable pub total_score : List Finding → Fraction
total_score [] = record { num = 0; den = 1 }
total_score (f ∷ fs) =
    let rest = total_score fs in elim f.risk [ none ↦ rest | some r ↦ add_fractions r.score rest ]

-- A difference of two fractions, before it is rounded.
pub record Delta : Type 0 where
  pub num : ℤ
  pub den : ℕ

unfoldable pub minus : Fraction → Fraction → Delta
minus p q = record { num = pos (p.num * q.den) -ℤ pos (q.num * p.den); den = p.den * q.den }

unfoldable pub minus? : Option Fraction → Option Fraction → Option Delta
minus? none q = none
minus? (some p) none = none
minus? (some p) (some q) = some (minus p q)

-- A mass as a fraction.
abbrev whole : Option ℕ → Option Fraction
whole none = none
whole (some n) = some (record { num = n; den = 1 })

pub record DriftSummary : Type 0 where
  pub added_count : ℕ
  pub resolved_count : ℕ
  pub changed_count : ℕ
  pub net_risk_delta : Delta
  pub coverage_delta : Option Delta
  pub residue_mass_delta : Option Delta

pub record Drift : Type 0 where
  pub target_id : String
  pub from_snapshot_id : String
  pub to_snapshot_id : String
  pub added : List Finding
  pub resolved : List Finding
  pub changed : List DriftChangedItem
  pub summary : DriftSummary

-- The drift of two snapshots with the findings of their scans.
unfoldable pub drift_between : ScanSnapshot → ScanSnapshot → List Finding → List Finding → Drift
drift_between from to from_findings to_findings =
    let from_map = index from_findings in
    let to_map = index to_findings in
    let added = missing_from from_map to_map in
    let resolved = missing_from to_map from_map in
    let changed = changed_items from_map to_map in
    record {
      target_id = from.target_id;
      from_snapshot_id = from.id;
      to_snapshot_id = to.id;
      added = added;
      resolved = resolved;
      changed = changed;
      summary = record {
        added_count = length added;
        resolved_count = length resolved;
        changed_count = length changed;
        net_risk_delta = minus (total_score to_findings) (total_score from_findings);
        coverage_delta = minus? to.coverage_ratio from.coverage_ratio;
        residue_mass_delta = minus? (whole to.residue_mass) (whole from.residue_mass);
      };
    }

unfoldable pub get_snapshot : String → List ScanSnapshot → Option ScanSnapshot
get_snapshot id snapshots = find? (λ s. str_eq s.id id) snapshots

-- `list_findings`
unfoldable pub list_findings : Reason → String → List FindingRecord → List Finding
list_findings default scan_id rows =
    map (record_to_finding default) (keep (λ r. str_eq r.scan_id scan_id) rows)

-- The checks on the two snapshots; `default` is the reason of a row without one.
unfoldable pub drift_of :
    Reason → String → List FindingRecord → Option ScanSnapshot → Option ScanSnapshot → Option Drift
drift_of default target_id rows none to = none
drift_of default target_id rows (some from) none = none
drift_of default target_id rows (some from) (some to) =
    if str_eq from.target_id target_id && str_eq to.target_id target_id
    then some (
        drift_between from to (list_findings default from.scan_id rows)
          (list_findings default to.scan_id rows))
    else none

unfoldable pub calculate_drift :
    Reason → String → String → String → List ScanSnapshot → List FindingRecord → Option Drift
calculate_drift default target_id from_id to_id snapshots rows =
    drift_of default target_id rows (get_snapshot from_id snapshots) (get_snapshot to_id snapshots)
