-- ===== src/Risk.antt =====
-- The Mosca risk formula (backend/engine/risk.py).
-- The factors V, F, E and K are decimals of two places at most, and are counted in hundredths.
-- Urgency and score are exact fractions: the program computes them in floating point.
pub mod Families
pub mod Factors
pub mod Formula
pub mod Floor
pub mod Catalog
pub mod Recommend
mod Tests
use sih.Prelude.{
  ℕ, ◌+◌, ◌*◌, ◌≤◌, ◌^◌, min, max, Bool, true, false, Option, none, some, ◌==◌, leb, if◌then◌else◌,
}
use mathlib.Core.Option
use sih.Prelude.Int.{ℤ, pos, pos_part, ◌+ℤ◌, ◌-ℤ◌, ◌*ℤ◌, ltb_ℤ}
use sih.Model.{RiskBand, critical, high, medium, low, Fraction, at_least}

-- `max(low, min(high, value))`
unfoldable pub clamp : ℤ → ℤ → ℤ → ℤ
clamp value least most =
    let m : ℤ = if ltb_ℤ value most then value else most in if ltb_ℤ least m then m else least

-- `0.5 + margin / (2 * z)` between 0.05 and 1.0, for a horizon above 0: over the denominator
-- `20 * z` these are `10 * z + 10 * margin`, `z` and `20 * z`.
unfoldable pub urgency_of : ℤ → ℤ → ℕ → Fraction
urgency_of x y z =
    let margin = x +ℤ y -ℤ pos z in
    record {
      num = pos_part (clamp (pos (10 * z) +ℤ pos 10 *ℤ margin) (pos z) (pos (20 * z)));
      den = 20 * z;
    }

-- `none` is the `ZeroDivisionError` of a horizon of 0 years.
unfoldable pub compute_urgency : ℤ → ℤ → ℕ → Bool → Option Fraction
compute_urgency x y z true = some (record { num = 1; den = 1 })
compute_urgency x y z false = if z == 0 then none else some (urgency_of x y z)

-- `clamp(100.0 * v * f * u * e * k, 0.0, 100.0)`; the four hundredths make a denominator of
-- 10 ^ 8, less the factor 100.
unfoldable pub compute_score : ℕ → ℕ → ℕ → ℕ → Fraction → Fraction
compute_score v f e k u = record {
  num = min (v * f * e * k * u.num) (100 * (10 ^ 6 * u.den));
  den = 10 ^ 6 * u.den;
}

unfoldable pub band_for_score : Fraction → RiskBand
band_for_score s =
    if at_least s 60
    then critical
    else if at_least s 35
    then high
    else if at_least s 15
    then medium
    else low

-- The three results of `rescore`.
pub record Scored : Type 0 where
  pub score : Fraction
  pub urgency : Fraction
  pub band : RiskBand

unfoldable pub scored_at : ℕ → ℕ → ℕ → ℕ → Fraction → Scored
unfolding compute_score band_for_score
scored_at v f e k u =
    let score = compute_score v f e k u in
    record { score = score; urgency = u; band = band_for_score score }

unfoldable pub rescore : ℕ → ℕ → ℕ → ℕ → ℤ → ℤ → ℕ → Bool → Option Scored
rescore v f e k x y z broken = Option.map (scored_at v f e k) (compute_urgency x y z broken)
