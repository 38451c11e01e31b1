-- ===== src/Gate/Token.antt =====
-- Who is let in: the bearer token.
use sih.Prelude.{
  ℕ, ◌↔◌, some_inj, none-some, ◌∙◌, ◌≡◌, refl, sym, ap, subst, inl, inr, false, Option, none, some,
  [], ◌∷◌, ◌≢◌, Bool-cases,
}
use sih.Prelude.Keep.{List-cases}
use sih.Prelude.Bytes.{Bytes, bytes_eq, bytes_eq→eq, bytes_eq_refl, str_strip}
use sih.Gate.{
  Environment, dev_token, get_expected_token, granted, unauthorized, misconfigured, compare_token,
  verify_bearer_token,
}

-- What the environment wants as a token, if it wants one.
abbrev pub Expects : Environment → Bytes → Type 0
Expects env t = get_expected_token env ≡ some t

granted_inj : (a b : Bytes) → granted a ≡ granted b → a ≡ b
granted_inj a b e = cc

cons_expected : (c : ℕ) (s t : Bytes) → some (c ∷ s) ≡ some t → t ≢ []
cons_expected c s t e = cc

dev_not_empty : dev_token ≢ []
unfolding dev_token
dev_not_empty e = cc

not_granted : (t : Bytes) → unauthorized ≢ granted t
not_granted t e = cc

not_granted_either : (t : Bytes) → misconfigured ≢ granted t
not_granted_either t e = cc

-- A token that is expected is never empty.
expected_not_empty : (env : Environment) (t : Bytes) → Expects env t → t ≢ []
unfolding get_expected_token
expected_not_empty env t e = elim (List-cases (str_strip env.api_token)) [
  | inl n ↦ elim (Bool-cases env.dev_mode) [
    | inl d ↦ λ k. dev_not_empty (some_inj (rw (n, d, get_expected_token) at e) ∙ k)
    | inr d ↦ λ k. absurd (none-some (rw (n, d, get_expected_token) at e))
  ]
  | inr (c, s, n) ↦ λ k. absurd (cons_expected c s t (rw (n, get_expected_token) at e) k)
]

compare_token_lem :
    (g t : Bytes) (o : Option Bytes) → compare_token g o ≡ granted t → (g ≡ t) × (o ≡ some t)
unfolding compare_token
compare_token_lem g t none e = absurd (not_granted_either t e)
compare_token_lem g t (some x) e = elim (Bool-cases (bytes_eq g x)) [
  | inl b ↦
      let same = granted_inj g t (rw (b, compare_token) at e) in
      (same, ap some (sym (bytes_eq→eq g x b) ∙ same))
  | inr b ↦ absurd (not_granted t (rw (b, compare_token) at e))
]

granted_given :
    (env : Environment) (g : Option Bytes) (t : Bytes)
    → verify_bearer_token env g ≡ granted t
    → (g ≡ some t) × Expects env t
unfolding verify_bearer_token
granted_given env none t e = absurd (not_granted t e)
granted_given env (some []) t e = absurd (not_granted t e)
granted_given env (some (c ∷ s)) t e =
    let (same, x) = compare_token_lem (c ∷ s) t (get_expected_token env) e in (ap some same, x)

given_granted :
    (env : Environment) (t : Bytes) → Expects env t → verify_bearer_token env (some t) ≡ granted t
unfolding verify_bearer_token compare_token
given_granted env [] x = absurd (expected_not_empty env [] x refl)
given_granted env (c ∷ s) x = rw x (rw (bytes_eq_refl (c ∷ s)) refl)

none_expected :
    (env : Environment) (t : Bytes)
    → str_strip env.api_token ≡ []
    → env.dev_mode ≡ false
    → Expects env t
    → ⊥
unfolding get_expected_token
none_expected env t n d x = none-some (rw (n, d, get_expected_token) at x)

-- A request is let in with a token exactly when it carries that token and the environment expects
-- it; without a token in the environment, outside of development, none is let in.
pub verify_bearer_token_lem :
    (env : Environment) (given : Option Bytes) (t : Bytes)
    → ((verify_bearer_token env given ≡ granted t) ↔ ((given ≡ some t) × Expects env t))
      × (str_strip env.api_token ≡ []
          → env.dev_mode ≡ false
          → verify_bearer_token env given ≢ granted t)
verify_bearer_token_lem env given t = (
  (
    granted_given env given t,
    λ h. subst (λ g. verify_bearer_token env g ≡ granted t) (sym h.0) (given_granted env t h.1),
  ),
  λ n d e. none_expected env t n d (granted_given env given t e).1,
)
