-- ===== src/Database/Rescore/Floor.antt =====
-- Rescoring (backend/api/store.py) and the floor of a private key (backend/engine/factors.py).
use sih.Prelude.{
  ℕ, ◌<◌, ◌≡◌, refl, ap, sym, ◌∙◌, Bool, true, false, ◌||◌, Option, some, String, arith, subst,
  some_inj,
}
use sih.Prelude.Text.{eq_refl}
use sih.Model.{Fraction, at_least, Risk, Finding, Policy, Detection}
use sih.Risk.{urgency_of, compute_urgency, Scored, scored_at, rescore}
use sih.Risk.Factors.{
  derive_risk, risk_of, formula_result, matched_context, resolve_vulnerability,
  function_criticality, exposure_weight, criticality_weight, forced_private_key, round_to, floor,
}
use sih.Database.{FindingRecord, finding_to_record}
use sih.Database.Rescore.{
  is_eligible, new_score, apart, score_moved, band_moved, new_band, is_changed, rescored,
  update_row,
}
use sih.Database.Rescore.Effect.{formula_score, new_score_lem}

moved_apart :
    (s q : Fraction) (o n : Option Fraction) (b : Bool)
    → o ≡ some s
    → n ≡ some q
    → apart s q ≡ true
    → (score_moved o n || b) ≡ true
unfolding score_moved
moved_apart s q o n b eo en far = ground arith

module _ (fnmatch : String → String → Bool) (d : Detection) (policy : Policy) where
  -- The formula at the factors of the detection, without the floor.
  abbrev pub unfloored : Scored
  unfloored =
      let ctx = matched_context fnmatch d.path policy in
      scored_at (resolve_vulnerability d).0 (function_criticality d.function)
        (exposure_weight ctx.exposure) (criticality_weight ctx.criticality)
        (urgency_of ctx.shelf_life_years ctx.migration_years policy.crqc_years)

  derive_risk_lem :
      (resolve_vulnerability d).1 ≡ false
      → 0 < policy.crqc_years
      → derive_risk fnmatch d policy ≡ some (risk_of fnmatch d policy unfloored)
  unfolding derive_risk formula_result rescore compute_urgency
  derive_risk_lem sound h = ground arith

  -- The row of a finding that carries the risk of the detection.
  abbrev row : Finding → String → FindingRecord
  row f scan_id =
      finding_to_record (record f { risk = some (risk_of fnmatch d policy unfloored) }) scan_id

  formula_score-row :
      (f : Finding) (scan_id : String)
      → formula_score policy.crqc_years (row f scan_id) ≡ unfloored.score
  unfolding finding_to_record risk_of scored_at
  formula_score-row f scan_id = refl

  floored_apart : (q : Fraction) → at_least q 89 ≡ false → apart (round_to 100 floor) q ≡ true
  unfolding apart round_to
  floored_apart q h = ground arith

  -- The stored score of a floored finding.
  row_score :
      (f : Finding) (scan_id : String)
      → forced_private_key fnmatch d
          (matched_context fnmatch d.path policy)
          (resolve_vulnerability d).0
          unfloored.score
        ≡ true
      → (row f scan_id).risk_score ≡ some (round_to 100 floor)
  unfolding finding_to_record risk_of
  row_score f scan_id forced = rw forced

  row-is_eligible :
      (f : Finding) (scan_id : String)
      → (resolve_vulnerability d).1 ≡ false
      → is_eligible scan_id (row f scan_id) ≡ true
  unfolding is_eligible finding_to_record risk_of
  row-is_eligible f scan_id sound = rw (eq_refl scan_id) (rw sound)

  risk_of_forced :
      forced_private_key fnmatch d
          (matched_context fnmatch d.path policy)
          (resolve_vulnerability d).0
          unfloored.score
        ≡ true
      → at_least (risk_of fnmatch d policy unfloored).score 90 ≡ true
  unfolding risk_of
  risk_of_forced forced = rw forced (unfold round_to in refl)

  row_drops :
      (f : Finding) (scan_id : String)
      → (resolve_vulnerability d).1 ≡ false
      → 0 < policy.crqc_years
      → forced_private_key fnmatch d
          (matched_context fnmatch d.path policy)
          (resolve_vulnerability d).0
          unfloored.score
        ≡ true
      → at_least unfloored.score 89 ≡ false
      → (update_row scan_id policy.crqc_years (row f scan_id)).risk_score ≡ some unfloored.score
  unfolding update_row
  row_drops f scan_id sound h forced low =
      rw (row-is_eligible f scan_id sound, changed) (unfold rescored in new)
    where
      z : ℕ
      z = policy.crqc_years

      new : new_score z (row f scan_id) ≡ some unfloored.score
      new = new_score_lem z (row f scan_id) h ∙ ap some (formula_score-row f scan_id)

      changed : is_changed z (row f scan_id) ≡ true
      changed =
          unfold is_changed in
          moved_apart (round_to 100 floor) unfloored.score (row f scan_id).risk_score
            (new_score z (row f scan_id))
            (band_moved (row f scan_id).risk_band (new_band z (row f scan_id)))
            (row_score f scan_id forced) new (floored_apart unfloored.score low)

  -- A detection that is not classically broken and that the floor lifts is stored with a score of
  -- at least 90; where the formula gives less than 89, rescoring the scan under the very horizon
  -- of the policy stores the formula's score in its place, without the floor.
  pub rescore_drops_floor :
      (f : Finding) (r : Risk) (scan_id : String)
      → derive_risk fnmatch d policy ≡ some r
      → (resolve_vulnerability d).1 ≡ false
      → 0 < policy.crqc_years
      → forced_private_key fnmatch d
          (matched_context fnmatch d.path policy)
          (resolve_vulnerability d).0
          unfloored.score
        ≡ true
      → at_least unfloored.score 89 ≡ false
      → (at_least r.score 90 ≡ true)
        × ((update_row scan_id policy.crqc_years
              (finding_to_record (record f { risk = some r }) scan_id)).risk_score
            ≡ some unfloored.score)
  rescore_drops_floor f r scan_id e sound h forced low =
      let stored = some_inj (sym (derive_risk_lem sound h) ∙ e) in
      subst
        (λ (q : Risk).
          (at_least q.score 90 ≡ true)
          × ((update_row scan_id policy.crqc_years
                (finding_to_record (record f { risk = some q }) scan_id)).risk_score
              ≡ some unfloored.score))
        stored (risk_of_forced forced, row_drops f scan_id sound h forced low)
