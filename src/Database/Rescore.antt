-- ===== src/Database/Rescore.antt =====
-- Rescoring a scan under another horizon (backend/api/store.py, `rescore_scan_findings`): the
-- bulk `UPDATE`, the counts of the bands and the scan's row. SQL's NULL is `none`; a horizon of 0
-- divides by 0, which SQLite makes NULL.
pub mod Rows
pub mod Effect
pub mod Floor
pub mod Audited
mod Tests
use mathlib.Core.Option
use sih.Prelude.{
  ℕ, zero, suc, ◌+◌, ◌-◌, ◌*◌, ◌^◌, min, Bool, true, false, not, ◌&&◌, ◌||◌, Option, none, some,
  String, List, [], ◌∷◌, map, keep, length, any, ltb, ◌==◌, if◌then◌else◌,
}
use sih.Prelude.Int.{ℤ, pos, ◌+ℤ◌, ◌-ℤ◌}
use sih.Prelude.Text.{str_eq}
use sih.Model.Scans.{BandCounts, Scan}
use sih.Model.{RiskBand, critical, high, medium, low, band_eq, Fraction}
use sih.Risk.{urgency_of, compute_score, band_for_score}
use sih.Database.{FindingRecord, or_else}

-- `WHERE scan_id = … AND risk_score IS NOT NULL AND (risk_classically_broken = 0 OR … IS NULL)`
unfoldable pub is_eligible : String → FindingRecord → Bool
is_eligible scan_id r =
    str_eq r.scan_id scan_id
    && ((elim r.risk_score [ none ↦ false | some _ ↦ true ])
        && not (or_else r.risk_classically_broken false))

-- The columns of `urgency`, `calculated` and `banded`.
unfoldable pub new_margin : ℕ → FindingRecord → ℤ
new_margin z r = or_else r.risk_x (pos 0) +ℤ or_else r.risk_y (pos 0) -ℤ pos z

unfoldable pub new_u : ℕ → FindingRecord → Option Fraction
new_u z r =
    if z == 0
    then none
    else some (urgency_of (or_else r.risk_x (pos 0)) (or_else r.risk_y (pos 0)) z)

unfoldable pub new_score : ℕ → FindingRecord → Option Fraction
new_score z r =
    Option.map
      (compute_score (or_else r.risk_v 0) (or_else r.risk_f 0) (or_else r.risk_e 0)
        (or_else r.risk_k 0))
      (new_u z r)

-- The `CASE`; its comparisons with NULL fail, and leave `'low'`.
unfoldable pub new_band : ℕ → FindingRecord → RiskBand
new_band z r = elim (new_score z r) [ none ↦ low | some s ↦ band_for_score s ]

-- `ABS(p - q) > 1e-6`
unfoldable pub apart : Fraction → Fraction → Bool
apart p q =
    let a = p.num * q.den in
    let b = q.num * p.den in ltb (p.den * q.den) ((a - b + (b - a)) * 10 ^ 6)

-- `ABS(risk_score - new_score) > 1e-6`, where NULL is not true.
unfoldable pub score_moved : Option Fraction → Option Fraction → Bool
score_moved none new = false
score_moved (some s) none = false
score_moved (some s) (some n) = apart s n

-- `risk_band != new_band`, where NULL is not true.
unfoldable pub band_moved : Option RiskBand → RiskBand → Bool
band_moved none new = false
band_moved (some b) new = not (band_eq b new)

unfoldable pub is_changed : ℕ → FindingRecord → Bool
is_changed z r = score_moved r.risk_score (new_score z r) || band_moved r.risk_band (new_band z r)

-- The `SET` clause.
unfoldable pub rescored : ℕ → FindingRecord → FindingRecord
rescored z r = record r {
  risk_score = new_score z r;
  risk_u = new_u z r;
  risk_band = some (new_band z r);
  risk_z = some z;
  risk_mosca_margin = some (new_margin z r);
}

unfoldable pub update_row : String → ℕ → FindingRecord → FindingRecord
update_row scan_id z r = if is_eligible scan_id r && is_changed z r then rescored z r else r

-- `SELECT risk_band, COUNT(*) … WHERE scan_id = … GROUP BY risk_band`, for one band.
unfoldable pub count_band : String → RiskBand → List FindingRecord → ℕ
count_band scan_id band rows = length (
    keep
      (λ r.
        str_eq r.scan_id scan_id && (elim r.risk_band [ none ↦ false | some b ↦ band_eq b band ]))
      rows)

unfoldable pub count_bands : String → List FindingRecord → BandCounts
unfolding count_band
count_bands scan_id rows = record {
  critical_count = count_band scan_id critical rows;
  high_count = count_band scan_id high rows;
  medium_count = count_band scan_id medium rows;
  low_count = count_band scan_id low rows;
}

pub record Tables : Type 0 where
  pub scans : List Scan
  pub findings : List FindingRecord

-- The horizon: `crqc_years`, or 10.
abbrev pub horizon : Option ℕ → ℕ
horizon none = 10
horizon (some z) = z

unfoldable pub update_scan : String → BandCounts → Option ℕ → Scan → Scan
update_scan scan_id bands crqc_years s =
    if str_eq s.id scan_id
    then record s { bands = bands; crqc_years = or_else crqc_years s.crqc_years }
    else s

-- `none`: no such scan, and nothing is written. Else the counts, the changed rows and the tables.
unfoldable pub rescore_rows :
    String → Option ℕ → Tables → Option (BandCounts × List FindingRecord × Tables)
rescore_rows scan_id crqc_years t =
    let z = horizon crqc_years in
    let findings = map (update_row scan_id z) t.findings in
    let bands = count_bands scan_id findings in
    if any (λ s. str_eq s.id scan_id) t.scans
    then some (
      bands,
      map (rescored z) (keep (λ r. is_eligible scan_id r && is_changed z r) t.findings),
      record { scans = map (update_scan scan_id bands crqc_years) t.scans; findings = findings },
    )
    else none
