-- ===== src/Database/Rescore/Rows.antt =====
-- One row under the bulk update (backend/api/store.py, `rescore_scan_findings`).
use sih.Prelude.{
  ℕ, ◌≡◌, refl, true, false, ◌&&◌, Option, none, some, String, arith, Bool-cases, inl, inr,
}
use sih.Model.{RiskBand, band_eq, Fraction}
use sih.Database.{FindingRecord}
use sih.Database.Rescore.{
  is_eligible, new_u, new_score, new_band, apart, score_moved, band_moved, is_changed, rescored,
  update_row,
}

pub band_eq_iff : (a b : RiskBand) → band_eq a b ≡ true → a ≡ b
unfolding band_eq
band_eq_iff a b h = ground arith

pub band_eq_refl : (a : RiskBand) → band_eq a a ≡ true
unfolding band_eq
band_eq_refl a = ground arith

pub apart_irrefl : (p : Fraction) → apart p p ≡ false
unfolding apart
apart_irrefl p = ground arith

-- What the update writes depends on columns that it does not write.
new_score-rescored : (z : ℕ) (r : FindingRecord) → new_score z (rescored z r) ≡ new_score z r
unfolding new_score new_u rescored
new_score-rescored z r = refl

new_band-rescored : (z : ℕ) (r : FindingRecord) → new_band z (rescored z r) ≡ new_band z r
unfolding new_band new_score new_u rescored
new_band-rescored z r = refl

score_settled : (s : Option Fraction) → score_moved s s ≡ false
unfolding score_moved
score_settled none = refl
score_settled (some p) = apart_irrefl p

band_settled : (b : RiskBand) → band_moved (some b) b ≡ false
unfolding band_moved
band_settled b = rw (band_eq_refl b)

pub rescored_settled : (z : ℕ) (r : FindingRecord) → is_changed z (rescored z r) ≡ false
unfolding is_changed
rescored_settled z r =
    rw (new_score-rescored z r, new_band-rescored z r)
      (unfold rescored in rw (score_settled (new_score z r)) (band_settled (new_band z r)))

-- Rescoring a row twice under one horizon is rescoring it once.
pub update_row_idem :
    (scan_id : String) (z : ℕ) (r : FindingRecord)
    → update_row scan_id z (update_row scan_id z r) ≡ update_row scan_id z r
unfolding update_row
update_row_idem scan_id z r = elim (Bool-cases (is_eligible scan_id r && is_changed z r)) [
  | inl e ↦ rw e (rw (rescored_settled z r) (ground arith))
  | inr e ↦ rw e (rw e)
]
