-- ===== src/Policies.antt =====
-- Which policy a scan is scored against (`resolve_policy` of backend/api/store.py).
pub mod Priority
mod Tests
use sih.Prelude.{
  ℕ, ◌≡◌, Bool, true, false, Option, none, some, String, List, [], ◌∷◌, ◌++◌, map, keep, find?,
  if◌then◌else◌,
}
use sih.Prelude.Text.{str_eq}
use sih.Model.{Context, GlobContext, Policy, Criticality, Exposure, external, internal}

pub data AssetFacing : Type 0 where
  facing_internal facing_external : AssetFacing

-- `AssetCriticality`, as an operator sets it for the paths of a target.
pub record AssetCriticality : Type 0 where
  pub target_id : String
  pub path_pattern : String
  pub criticality : Criticality
  pub business_owner : String
  pub data_classification : String
  pub facing : AssetFacing

-- `ScanCreate`
pub record ScanCreate : Type 0 where
  pub path : Option String
  pub policy_id : Option String
  pub crqc_years : Option ℕ

unfoldable pub exposure_of : AssetFacing → Exposure
exposure_of facing_external = external
exposure_of facing_internal = internal

-- An entry of `extra_contexts`.
unfoldable pub extra_context : Policy → AssetCriticality → GlobContext
extra_context policy c = record {
  context = record {
    exposure = exposure_of c.facing;
    criticality = c.criticality;
    shelf_life_years = policy.default.shelf_life_years;
    migration_years = policy.default.migration_years;
  };
  glob = c.path_pattern;
}

-- `payload.policyId or DEFAULT_POLICY.id`
unfoldable pub policy_id_of : Policy → Option String → String
policy_id_of fallback none = fallback.id
policy_id_of fallback (some id) = if str_eq id "" then fallback.id else id

-- The row of that id, or the default policy itself.
unfoldable pub stored_policy : Policy → List Policy → String → Policy
stored_policy fallback rows id = elim (find? (λ p. str_eq p.id id) rows) [
  | none ↦ fallback
  | some p ↦ p
]

unfoldable pub with_horizon : Option ℕ → Policy → Policy
with_horizon none policy = policy
with_horizon (some z) policy = record policy { crqc_years = z }

unfoldable pub list_asset_criticalities : String → List AssetCriticality → List AssetCriticality
list_asset_criticalities target_id rows = keep (λ c. str_eq c.target_id target_id) rows

-- The contexts of the operator stand before those of the policy.
unfoldable pub with_criticalities : List AssetCriticality → Policy → Policy
with_criticalities cs policy = record policy {
  contexts = map (extra_context policy) cs ++ policy.contexts;
}

unfoldable pub for_target : Option String → List AssetCriticality → Policy → Policy
for_target none rows policy = policy
for_target (some target_id) rows policy =
    with_criticalities (list_asset_criticalities target_id rows) policy

-- `resolve_policy`, on the tables of policies and criticalities; `fallback` is `DEFAULT_POLICY`. No
-- criticality adds no context.
unfoldable pub resolve_policy :
    Policy → List Policy → List AssetCriticality → ScanCreate → Option String → Policy
resolve_policy fallback policies criticalities payload target_id =
    for_target target_id criticalities (
      with_horizon payload.crqc_years
        (stored_policy fallback policies (policy_id_of fallback payload.policy_id)))
