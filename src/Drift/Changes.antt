-- ===== src/Drift/Changes.antt =====
-- What a drift reports.
use sih.Prelude.{
  ◌≡◌, refl, sym, ap, ◌∙◌, subst, Bool, true, false, not, ◌&&◌, Option, none, some, List, [], ◌∷◌,
  map, keep, All, arith, Bool-cases, Option-cases, inl, inr, if◌then◌else◌,
}
use sih.Prelude.Keep.{All-keep}
use sih.Prelude.Sort.{Pairwise}
use sih.Model.Scans.{ScanSnapshot}
use sih.Model.{Finding, band_eq}
use sih.Drift.{
  Identity, same_identity, finding_identity, FindingMap, index, has_key, lookup, missing_from,
  band_or_low, changed_items, drift_between,
}
use sih.Drift.Keys.{
  mentions, same_identity→eq, has_key-index, IsFiled, HasOtherKey, index-IsFiled, index-Pairwise,
}

-- An identity is among the findings that are missing from a map exactly when the other map has it
-- and this one does not.
mentions-missing_from :
    (k : Identity) (base m : FindingMap)
    → All IsFiled m
    → mentions k (missing_from base m) ≡ (has_key k m && not (has_key k base))
unfolding missing_from has_key
mentions-missing_from k base [] a = refl
mentions-missing_from k base (e ∷ m) (h, a) =
    let rest = mentions-missing_from k base m a in
    let filed : same_identity k e.0 ≡ same_identity k (finding_identity e.1) =
      ap (same_identity k) h in
    elim (Bool-cases (same_identity k e.0)) [
      | inl s ↦
          let same : has_key k base ≡ has_key e.0 base =
            ap (λ i. has_key i base) (same_identity→eq k e.0 s) in
          ground arith
      | inr s ↦ ground arith
    ]

abbrev pub differ : Option Finding → Option Finding → Bool
differ none g = false
differ (some f) none = false
differ (some f) (some g) = not (band_eq (band_or_low f) (band_or_low g))

pub lookup_here :
    (k : Identity) (e : Identity × Finding) (m : FindingMap)
    → same_identity k e.0 ≡ true
    → lookup k (e ∷ m) ≡ some e.1
unfolding lookup
lookup_here k e m h = rw (h, lookup) refl

pub lookup_there :
    (k : Identity) (e : Identity × Finding) (m : FindingMap)
    → same_identity k e.0 ≡ false
    → lookup k (e ∷ m) ≡ lookup k m
unfolding lookup
lookup_there k e m h = rw (h, lookup) refl

lookup-fresh :
    (k : Identity) (m : FindingMap) → All (λ e. same_identity k e.0 ≡ false) m → lookup k m ≡ none
unfolding lookup
lookup-fresh k [] a = refl
lookup-fresh k (e ∷ m) (h, a) = lookup_there k e m h ∙ lookup-fresh k m a

mentions-fresh :
    (k : Identity) (base m : FindingMap)
    → All (λ e. same_identity k e.0 ≡ false) m
    → All IsFiled m
    → mentions k (map (λ c. c.finding) (changed_items base m)) ≡ false
unfolding changed_items
mentions-fresh k base [] a f = refl
mentions-fresh k base (e ∷ m) (h, a) (i, f) =
    let filed : same_identity k e.0 ≡ same_identity k (finding_identity e.1) =
      ap (same_identity k) i in
    ground (arith, mentions-fresh k base m a f)

changed_none :
    (base : FindingMap) (e : Identity × Finding) (m : FindingMap)
    → lookup e.0 base ≡ none
    → changed_items base (e ∷ m) ≡ changed_items base m
unfolding changed_items
changed_none base e m n = rw (n, changed_items) refl

pub changed_some :
    (base : FindingMap) (e : Identity × Finding) (m : FindingMap) (g : Finding)
    → lookup e.0 base ≡ some g
    → changed_items base (e ∷ m) ≡ (
        if band_eq (band_or_low g) (band_or_low e.1)
        then changed_items base m
        else record { finding = e.1; from_band = band_or_low g; to_band = band_or_low e.1 }
          ∷ changed_items base m)
unfolding changed_items
changed_some base e m g n = rw (n, changed_items) refl

lookup_empty : (k : Identity) → lookup k [] ≡ none
unfolding lookup
lookup_empty k = refl

-- An identity is among the changed findings exactly when both maps have it and the bands differ.
mentions-changed_items :
    (k : Identity) (base m : FindingMap)
    → All IsFiled m
    → Pairwise HasOtherKey m
    → mentions k (map (λ c. c.finding) (changed_items base m)) ≡ differ (lookup k base) (lookup k m)
unfolding changed_items
mentions-changed_items k base [] f p = rw (lookup_empty k) (nothing (lookup k base))
  where
    nothing : (o : Option Finding) → false ≡ differ o none
    nothing none = refl
    nothing (some g) = refl
mentions-changed_items k base (e ∷ m) (i, f) (a, p) =
    let filed : same_identity k e.0 ≡ same_identity k (finding_identity e.1) =
      ap (same_identity k) i in
    elim (Bool-cases (same_identity k e.0)) [
      | inl s ↦
          let same = same_identity→eq k e.0 s in
          let fresh =
            mentions-fresh k base m
              (subst (λ j. All (λ d. same_identity j d.0 ≡ false) m) (sym same) a) f in
          let there : lookup k base ≡ lookup e.0 base = ap (λ j. lookup j base) same in
          rw (lookup_here k e m s, there)
            (elim (Option-cases (lookup e.0 base)) [
              | inl n ↦ rw (n, changed_none base e m n) fresh
              | inr (g, n) ↦ rw (n, changed_some base e m g n) (ground (arith, fresh, filed, s))
            ])
      | inr s ↦ rw (lookup_there k e m s) (elim (Option-cases (lookup e.0 base)) [
        | inl n ↦ rw (changed_none base e m n) (mentions-changed_items k base m f p)
        | inr (g, n) ↦
            rw (changed_some base e m g n)
              (ground (arith, mentions-changed_items k base m f p, filed, s))
      ])
    ]

keep-Pairwise :
    (R : Identity × Finding → Identity × Finding → Type 0) (p : Identity × Finding → Bool)
    (m : FindingMap)
    → Pairwise R m
    → Pairwise R (keep p m)
keep-Pairwise R p [] h = tt
keep-Pairwise R p (e ∷ m) (a, h) = elim (Bool-cases (p e)) [
  | inl k ↦ rw k (All-keep (R e) p m a, keep-Pairwise R p m h)
  | inr k ↦ rw k (keep-Pairwise R p m h)
]

-- The findings have different identities.
abbrev pub IsDistinct : List Finding → Type 0
IsDistinct fs = Pairwise (λ f g. same_identity (finding_identity f) (finding_identity g) ≡ false) fs

values-IsDistinct :
    (m : FindingMap) → All IsFiled m → Pairwise HasOtherKey m → IsDistinct (map (λ e. e.1) m)
values-IsDistinct [] a p = tt
values-IsDistinct (e ∷ m) (h, a) (b, p) = (others m a b, values-IsDistinct m a p)
  where
    others :
        (n : FindingMap)
        → All IsFiled n
        → All (HasOtherKey e) n
        → All
            (λ g. same_identity (finding_identity e.1) (finding_identity g) ≡ false)
            (map (λ d. d.1) n)
    others [] a b = tt
    others (d ∷ n) (i, a) (o, b) = (rw (← h, ← i) o, others n a b)

missing_from-IsDistinct :
    (base m : FindingMap)
    → All IsFiled m
    → Pairwise HasOtherKey m
    → IsDistinct (missing_from base m)
unfolding missing_from
missing_from-IsDistinct base m a p =
    let fresh = λ (e : Identity × Finding). not (has_key e.0 base) in
    values-IsDistinct (keep fresh m) (All-keep IsFiled fresh m a)
      (keep-Pairwise HasOtherKey fresh m p)

-- The drift of two scans, by identities: added are those that only the second scan has, resolved
-- are those that only the first one has, and changed are those that both have with different bands
-- (of the last finding of each identity). No identity is added or resolved twice.
pub drift_between_lem :
    (from to : ScanSnapshot) (old new : List Finding) (k : Identity)
    → let d = drift_between from to old new in
      (mentions k d.added ≡ (mentions k new && not (mentions k old)))
      × (mentions k d.resolved ≡ (mentions k old && not (mentions k new)))
      × (mentions k (map (λ c. c.finding) d.changed)
          ≡ differ (lookup k (index old)) (lookup k (index new)))
      × IsDistinct d.added
      × IsDistinct d.resolved
unfolding drift_between
drift_between_lem from to old new k = (
  mentions-missing_from k (index old) (index new) (index-IsFiled new)
      ∙ rw (has_key-index k new, has_key-index k old) refl,
  mentions-missing_from k (index new) (index old) (index-IsFiled old)
      ∙ rw (has_key-index k old, has_key-index k new) refl,
  mentions-changed_items k (index old) (index new) (index-IsFiled new) (index-Pairwise new),
  missing_from-IsDistinct (index old) (index new) (index-IsFiled new) (index-Pairwise new),
  missing_from-IsDistinct (index new) (index old) (index-IsFiled old) (index-Pairwise old),
)
