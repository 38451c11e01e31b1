-- ===== src/Drift/Same.antt =====
-- The drift of a scan against itself.
use sih.Prelude.{
  ℕ, ◌*◌, ◌≡◌, refl, sym, ◌∙◌, true, some, List, [], ◌∷◌, All, arith, Bool-cases, inl, inr,
}
use sih.Prelude.Int.{pos, ◌-ℤ◌}
use sih.Prelude.Sort.{Pairwise}
use sih.Model.Scans.{ScanSnapshot}
use sih.Model.{Finding, RiskBand, band_eq}
use sih.Drift.{
  Identity, same_identity, FindingMap, index, has_key, lookup, missing_from, changed_items,
  band_or_low, minus, total_score, drift_between,
}
use sih.Drift.Keys.{same_identity_refl, same_identity_sym, HasOtherKey, index-Pairwise}
use sih.Drift.Changes.{lookup_here, lookup_there, changed_some}

minus_self : (n : ℕ) → pos n -ℤ pos n ≡ pos 0
unfolding ◌-ℤ◌
minus_self n = ground arith

band_eq_refl : (b : RiskBand) → band_eq b b ≡ true
unfolding band_eq
band_eq_refl b = ground arith

-- Every entry of a map is found under its key.
lookup_each : (m : FindingMap) → Pairwise HasOtherKey m → All (λ e. lookup e.0 m ≡ some e.1) m
lookup_each [] p = tt
lookup_each (e ∷ m) (a, p) =
    (lookup_here e.0 e m (same_identity_refl e.0), later m a (lookup_each m p))
  where
    later :
        (n : FindingMap)
        → All (HasOtherKey e) n
        → All (λ d. lookup d.0 m ≡ some d.1) n
        → All (λ d. lookup d.0 (e ∷ m) ≡ some d.1) n
    later [] a b = tt
    later (d ∷ n) (o, a) (h, b) =
        (lookup_there d.0 e m (same_identity_sym d.0 e.0 ∙ o) ∙ h, later n a b)

has_key-of-lookup :
    (k : Identity) (m : FindingMap) (f : Finding) → lookup k m ≡ some f → has_key k m ≡ true
unfolding has_key lookup
has_key-of-lookup k [] f e = ground arith
has_key-of-lookup k (d ∷ m) f e = elim (Bool-cases (same_identity k d.0)) [
  | inl s ↦ ground arith
  | inr s ↦ let h = has_key-of-lookup k m f (sym (lookup_there k d m s) ∙ e) in ground arith
]

missing_none :
    (base m : FindingMap) → All (λ e. lookup e.0 base ≡ some e.1) m → missing_from base m ≡ []
unfolding missing_from
missing_none base [] a = refl
missing_none base (e ∷ m) (h, a) = rw (has_key-of-lookup e.0 base e.1 h) (missing_none base m a)

changed_nothing :
    (base m : FindingMap) → All (λ e. lookup e.0 base ≡ some e.1) m → changed_items base m ≡ []
unfolding changed_items
changed_nothing base [] a = changed_empty
  where
    changed_empty : changed_items base [] ≡ []
    changed_empty = refl
changed_nothing base (e ∷ m) (h, a) =
    rw (changed_some base e m e.1 h)
      (rw (band_eq_refl (band_or_low e.1)) (changed_nothing base m a))

-- The drift of a scan against itself reports no finding, and the risk does not change.
pub drift_between_self :
    (from to : ScanSnapshot) (fs : List Finding)
    → let d = drift_between from to fs fs in
      (d.added ≡ []) × (d.resolved ≡ []) × (d.changed ≡ []) × (d.summary.net_risk_delta.num ≡ pos 0)
unfolding drift_between minus
drift_between_self from to fs =
    let each = lookup_each (index fs) (index-Pairwise fs) in
    let total = total_score fs in
    (
      missing_none (index fs) (index fs) each,
      missing_none (index fs) (index fs) each,
      changed_nothing (index fs) (index fs) each,
      minus_self (total.num * total.den),
    )
