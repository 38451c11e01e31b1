-- ===== src/Policies/Priority.antt =====
-- What an operator's criticality does to the context of a path.
use sih.Prelude.{
  ℕ, ◌≡◌, refl, Bool, none, some, String, List, [], ◌∷◌, ◌++◌, map, find?, Bool-cases, inl, inr,
}
use sih.Model.{Context, Policy}
use sih.Risk.Factors.{first_match, matched_context}
use sih.Policies.{
  AssetCriticality, ScanCreate, extra_context, policy_id_of, stored_policy, with_horizon,
  list_asset_criticalities, with_criticalities, for_target, resolve_policy,
}

-- The policy that is chosen before the operator's criticalities.
abbrev pub chosen : Policy → List Policy → ScanCreate → Policy
chosen fallback policies payload =
    with_horizon payload.crqc_years
      (stored_policy fallback policies (policy_id_of fallback payload.policy_id))

-- The first criticality that matches decides, else the policy does.
abbrev pub context_by : (String → String → Bool) → String → Policy → List AssetCriticality → Context
context_by fnmatch path policy cs = elim (find? (λ c. fnmatch path c.path_pattern) cs) [
  | none ↦ matched_context fnmatch path policy
  | some c ↦ (extra_context policy c).context
]

module _ (fnmatch : String → String → Bool) where
  first_match-extra :
      (path : String) (policy : Policy) (cs : List AssetCriticality)
      → first_match fnmatch path (map (extra_context policy) cs ++ policy.contexts) policy.default
        ≡ context_by fnmatch path policy cs
  unfolding first_match matched_context extra_context
  first_match-extra path policy [] = refl
  first_match-extra path policy (c ∷ cs) = elim (Bool-cases (fnmatch path c.path_pattern)) [
    | inl e ↦ rw (e, context_by) refl
    | inr e ↦ rw (e, context_by) (first_match-extra path policy cs)
  ]

  -- For a scan of a target, the context of a path is that of the first criticality of the target
  -- whose pattern matches the path, with the default's years, and without one it is the context
  -- that the chosen policy gives; the horizon is the payload's, if it has one, and else the
  -- policy's.
  pub resolve_policy_lem :
      (fallback : Policy) (policies : List Policy) (rows : List AssetCriticality)
      (payload : ScanCreate) (target_id path : String)
      → let resolved = resolve_policy fallback policies rows payload (some target_id) in
        let policy = chosen fallback policies payload in
        (matched_context fnmatch path resolved
          ≡ context_by fnmatch path policy (list_asset_criticalities target_id rows))
        × (resolved.crqc_years ≡ policy.crqc_years)
        × ((z : ℕ) → payload.crqc_years ≡ some z → resolved.crqc_years ≡ z)
  unfolding resolve_policy for_target with_criticalities with_horizon matched_context
  resolve_policy_lem fallback policies rows payload target_id path =
      let policy = chosen fallback policies payload in
      (
        first_match-extra path policy (list_asset_criticalities target_id rows),
        refl,
        λ z e. rw e refl,
      )
