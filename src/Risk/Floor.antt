-- ===== src/Risk/Floor.antt =====
-- The floor under the score of a private key (backend/engine/factors.py, `derive_risk`).
use sih.Prelude.{
  ℕ, ◌*◌, ◌/◌, ◌≤◌, ◌<◌, ◌≡◌, refl, Bool, true, false, some, String, arith, Bool-cases, inl, inr,
}
use sih.Prelude.Int.{ℤ}
use sih.Model.{Detection, Policy, Context, critical, keygen, Fraction, at_least, Risk}
use sih.Risk.{
  rescore, Scored, scored_at, compute_urgency, urgency_of, band_for_score, compute_score,
}
use sih.Risk.Formula.{urgency_of-den}
use sih.Risk.Factors.{
  derive_risk, risk_of, formula_result, matched_context, resolve_vulnerability, round_to, floor,
  is_test, forced_private_key, is_keygen, function_criticality, exposure_weight, criticality_weight,
}
use native.Mathlib.Nat.{le-div_iff_mul-le, mul-le-mul_left}

-- Rounding keeps a whole number as a lower bound.
round_to-at_least :
    (parts n : ℕ) (q : Fraction)
    → 0 < q.den
    → n * q.den ≤ q.num
    → n * parts ≤ (round_to parts q).num
unfolding round_to
round_to-at_least parts n q d h =
    let scaled = mul-le-mul_left parts h in
    let quotient : n * parts ≤ parts * q.num / q.den =
      (le-div_iff_mul-le d).1 (grind (arith, scaled)) in
    ground arith

-- The parts of a result of the formula.
compute_urgency-den :
    (x y : ℤ) (z : ℕ) (broken : Bool) (u : Fraction)
    → compute_urgency x y z broken ≡ some u
    → 0 < u.den
unfolding compute_urgency
compute_urgency-den x y z true u e = ground arith
compute_urgency-den x y z false u e = ground (arith, urgency_of-den x y z)

compute_urgency_total :
    (x y : ℤ) (z : ℕ) (broken : Bool)
    → 0 < z
    → (u : Fraction) × (compute_urgency x y z broken ≡ some u)
unfolding compute_urgency
compute_urgency_total x y z true h = (record { num = 1; den = 1 }, refl)
compute_urgency_total x y z false h = (urgency_of x y z, ground arith)

module _ (fnmatch : String → String → Bool) where
  abbrev context_of : Detection → Policy → Context
  context_of d policy = matched_context fnmatch d.path policy

  formula_result_total :
      (d : Detection) (policy : Policy)
      → 0 < policy.crqc_years
      → (s : Scored) × (formula_result fnmatch d policy ≡ some s)
        × (0 < s.score.den)
        × (s.band ≡ band_for_score s.score)
  unfolding formula_result rescore scored_at compute_score
  formula_result_total d policy h =
      let ctx = context_of d policy in
      let (v, broken) = resolve_vulnerability d in
      let (u, e) =
        compute_urgency_total ctx.shelf_life_years ctx.migration_years policy.crqc_years broken h in
      let positive =
        compute_urgency-den ctx.shelf_life_years ctx.migration_years policy.crqc_years broken u e in
      (
        scored_at v (function_criticality d.function) (exposure_weight ctx.exposure)
            (criticality_weight ctx.criticality) u,
        ground arith,
        omega arith,
        refl,
      )

  critical_of_90 : (q : Fraction) → at_least q 90 ≡ true → band_for_score q ≡ critical
  unfolding band_for_score
  critical_of_90 q h = ground arith

  risk_of_floor :
      (d : Detection) (policy : Policy) (s : Scored)
      → is_keygen d.function ≡ true
      → (resolve_vulnerability d).0 ≡ 100
      → is_test (context_of d policy).exposure ≡ false
      → 0 < s.score.den
      → s.band ≡ band_for_score s.score
      → let r = risk_of fnmatch d policy s in (at_least r.score 90 ≡ true) × (r.band ≡ critical)
  unfolding risk_of forced_private_key
  risk_of_floor d policy s key broken exposed positive band =
      elim (Bool-cases (at_least s.score 90)) [
        | inl above ↦ ground (arith, round_to-at_least 100 90 s.score, critical_of_90 s.score)
        | inr below ↦ ground (arith, round_to-at_least 100 90 floor, critical_of_90 floor)
      ]

  -- A key generation of full vulnerability, outside a test context and with a horizon above 0,
  -- gets a risk: its score is at least 90 and its band is critical.
  pub derive_risk_floor :
      (d : Detection) (policy : Policy)
      → d.function ≡ keygen
      → (resolve_vulnerability d).0 ≡ 100
      → is_test (context_of d policy).exposure ≡ false
      → 0 < policy.crqc_years
      → (r : Risk) × (derive_risk fnmatch d policy ≡ some r)
        × (at_least r.score 90 ≡ true)
        × (r.band ≡ critical)
  unfolding derive_risk
  derive_risk_floor d policy key broken exposed h =
      let (s, e, positive, band) = formula_result_total d policy h in
      let (above, top) = risk_of_floor d policy s (rw key) broken exposed positive band in
      (risk_of fnmatch d policy s, rw e, above, top)
