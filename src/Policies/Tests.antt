-- ===== src/Policies/Tests.antt =====
-- Runs of the choice of a policy.
use sih.Prelude.{ℕ, ◌≡◌, none, some, [], ◌∷◌}
use sih.Prelude.Int.{pos}
use sih.Prelude.Text.{str_eq}
use sih.Model.{Context, Policy, internal, business_medium, mission_critical}
use sih.Risk.Factors.{matched_context}
use sih.Policies.{
  AssetCriticality, facing_external, ScanCreate, list_asset_criticalities, resolve_policy,
}
use sih.Policies.Priority.{chosen, context_by, resolve_policy_lem}

abbrev inner : Context
inner = record {
  exposure = internal;
  criticality = business_medium;
  shelf_life_years = pos 5;
  migration_years = pos 3;
}

abbrev fallback : Policy
fallback = record {
  id = "policy_default";
  name = "Default";
  crqc_years = 10;
  default = inner;
  contexts = [];
}

abbrev crown : AssetCriticality
crown = record {
  target_id = "t1";
  path_pattern = "keys.py";
  criticality = mission_critical;
  business_owner = "ops";
  data_classification = "secret";
  facing = facing_external;
}

abbrev payload : ScanCreate
payload = record { path = some "/srv"; policy_id = none; crqc_years = some 7 }

resolve_policy_lem_run :
    let resolved = resolve_policy fallback [] (crown ∷ []) payload (some "t1") in
    let policy = chosen fallback [] payload in
    (matched_context str_eq "keys.py" resolved
      ≡ context_by str_eq "keys.py" policy (list_asset_criticalities "t1" (crown ∷ [])))
    × (resolved.crqc_years ≡ policy.crqc_years)
    × ((z : ℕ) → payload.crqc_years ≡ some z → resolved.crqc_years ≡ z)
resolve_policy_lem_run = resolve_policy_lem str_eq fallback [] (crown ∷ []) payload "t1" "keys.py"
