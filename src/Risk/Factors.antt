-- ===== src/Risk/Factors.antt =====
-- The risk of a detection under a policy (backend/engine/factors.py).
use sih.Prelude.{
  ℕ, ◌+◌, ◌*◌, ◌/◌, ◌%◌, Bool, true, false, not, ◌&&◌, Option, none, some, List, [], ◌∷◌, String,
  ltb, ◌==◌, if◌then◌else◌,
}
use mathlib.Core.Option
use sih.Prelude.Int.{pos, ◌+ℤ◌, ◌-ℤ◌, ltb_ℤ}
use sih.Model.{
  Family, CryptoFunction, keygen, sign, decrypt, keyderive, encrypt, verify, tag, digest, unknown,
  Exposure, external, internal, isolated, test, Criticality, mission_critical, business_high,
  business_medium, business_low, Context, GlobContext, Policy, Detection, Fraction, at_least, Risk,
  by_formula, private_key_floor,
}
use sih.Risk.{band_for_score, Scored, rescore}
use sih.Risk.Families.{is_classically_broken, is_hmac, vulnerability}

-- `_FUNCTION_CRITICALITY`
unfoldable pub function_criticality : CryptoFunction → ℕ
function_criticality keygen = 90
function_criticality sign = 85
function_criticality decrypt = 85
function_criticality keyderive = 80
function_criticality encrypt = 70
function_criticality verify = 60
function_criticality tag = 60
function_criticality digest = 50
function_criticality unknown = 50

-- `_CRITICALITY_WEIGHT`
unfoldable pub criticality_weight : Criticality → ℕ
criticality_weight mission_critical = 100
criticality_weight business_high = 80
criticality_weight business_medium = 60
criticality_weight business_low = 40

-- `_EXPOSURE_WEIGHT`
unfoldable pub exposure_weight : Exposure → ℕ
exposure_weight external = 100
exposure_weight internal = 60
exposure_weight isolated = 30
exposure_weight test = 10

abbrev pub is_keygen : CryptoFunction → Bool
is_keygen keygen = true
is_keygen _ = false

abbrev pub is_test : Exposure → Bool
is_test test = true
is_test _ = false

-- `round(value, places)`, halves to the even neighbour, for `10 ^ places` parts of a unit.
unfoldable pub round_to : ℕ → Fraction → Fraction
round_to parts q =
    let low = parts * q.num / q.den in
    let rest = parts * q.num % q.den in
    record {
      num =
          (if ltb (2 * rest) q.den
            then low
            else if ltb q.den (2 * rest)
            then low + 1
            else if low % 2 == 0
            then low
            else low + 1);
      den = parts;
    }

-- `_PRIVATE_KEY_FLOOR`
abbrev pub floor : Fraction
floor = record { num = 90; den = 1 }

-- `_resolve_vulnerability`
unfoldable pub resolve_vulnerability : Detection → ℕ × Bool
resolve_vulnerability d = elim d.family [
  | none ↦ (50, false)
  | some family ↦
      let resolved : Family =
        if is_hmac family
        then (elim d.underlying_hash_family [ none ↦ family | some hash ↦ hash ])
        else family in
      (vulnerability resolved d.key_size, is_classically_broken resolved)
]

-- `fnmatch.fnmatch` of Python's library: does the path match the pattern?
module _ (fnmatch : String → String → Bool) where
  -- The loop of `_matched_context`.
  unfoldable pub first_match : String → List GlobContext → Context → Context
  first_match path [] default = default
  first_match path (c ∷ cs) default =
      let rest = first_match path cs default in if fnmatch path c.glob then c.context else rest

  unfoldable pub matched_context : String → Policy → Context
  unfolding first_match
  matched_context path policy = first_match path policy.contexts policy.default

  -- `forced_private_key`
  unfoldable pub forced_private_key : Detection → Context → ℕ → Fraction → Bool
  forced_private_key d ctx v score =
      is_keygen d.function && (v == 100 && (not (is_test ctx.exposure) && not (at_least score 90)))

  -- The record that `derive_risk` returns, from the result of the formula.
  unfoldable pub risk_of : Detection → Policy → Scored → Risk
  unfolding resolve_vulnerability function_criticality criticality_weight exposure_weight
      forced_private_key round_to ◌+ℤ◌ ◌-ℤ◌
  risk_of d policy s =
      let ctx = matched_context d.path policy in
      let (v, broken) = resolve_vulnerability d in
      let x = ctx.shelf_life_years in
      let y = ctx.migration_years in
      let z = policy.crqc_years in
      let forced = forced_private_key d ctx v s.score in
      record {
        score = round_to 100 (if forced then floor else s.score);
        band = (if forced then band_for_score floor else s.band);
        v = v;
        f = function_criticality d.function;
        u = round_to 10000 s.urgency;
        e = exposure_weight ctx.exposure;
        k = criticality_weight ctx.criticality;
        x = x;
        y = y;
        z = z;
        mosca_margin = x +ℤ y -ℤ pos z;
        reason =
            (if forced
              then private_key_floor
              else by_formula d.family d.function ctx.exposure ctx.criticality x y z);
        classically_broken = broken;
        hndl = ltb_ℤ (pos 0) x && ltb 50 v;
        needs_review = ltb d.confidence 75;
      }

  -- The call of `rescore` in `derive_risk`.
  unfoldable pub formula_result : Detection → Policy → Option Scored
  unfolding rescore
  formula_result d policy =
      let ctx = matched_context d.path policy in
      let (v, broken) = resolve_vulnerability d in
      rescore v (function_criticality d.function) (exposure_weight ctx.exposure)
        (criticality_weight ctx.criticality) ctx.shelf_life_years ctx.migration_years
        policy.crqc_years broken

  -- `none` is the `ZeroDivisionError` of a horizon of 0 years.
  unfoldable pub derive_risk : Detection → Policy → Option Risk
  unfolding risk_of formula_result
  derive_risk d policy = Option.map (risk_of d policy) (formula_result d policy)
