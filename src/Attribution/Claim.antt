-- ===== src/Attribution/Claim.antt =====
-- Which suspicion spans the findings claim (backend/engine/attribute/claim.py).
use sih.Prelude.{
  ℕ, ◌+◌, ◌≡◌, refl, ap, inl, inr, Bool, not, List, [], ◌∷◌, ◌++◌, map, keep, sum_by, Perm, any,
}
use sih.Prelude.Keep.{any_of_keep-nil, any_of_keep-cons, List-cases, keep-perm, sum_by-keep}
use sih.Attribution.{Span, spans_overlap, claim_one, attribute_claims}

abbrev pub claimed : List Span → Span → Bool
claimed findings s = any (λ f. spans_overlap s f) findings

-- The spans are split by whether a finding overlaps them, each part in the order of the list,
-- and the map has an entry with the claiming findings for each attributed span.
pub attribute_claims_lem :
    (findings spans : List Span)
    → let c = attribute_claims findings spans in
      (c.attributed ≡ keep (claimed findings) spans)
      × (c.unclaimed ≡ keep (λ s. not (claimed findings s)) spans)
      × (c.overlap_map
          ≡ map (λ s. (s, keep (λ f. spans_overlap s f) findings)) (keep (claimed findings) spans))
unfolding attribute_claims claim_one
attribute_claims_lem findings [] = (refl, refl, refl)
attribute_claims_lem findings (s ∷ ss) =
    let (a, u, m) = attribute_claims_lem findings ss in
    let overlaps = λ (f : Span). spans_overlap s f in
    elim (List-cases (keep overlaps findings)) [
      | inl e ↦ rw (e, claim_one) (rw (any_of_keep-nil overlaps findings e) (a, ap (◌∷◌ s) u, m))
      | inr (f, fs, e) ↦
          rw (e, claim_one)
            (rw (any_of_keep-cons overlaps findings f fs e)
              (ap (◌∷◌ s) a, u, rw (← e) (ap (◌∷◌ (s, keep overlaps findings)) m)))
    ]

abbrev pub mass : List Span → ℕ
mass = sum_by (λ s. s.magnitude)

-- Attribution loses nothing: attributed and unclaimed spans are a rearrangement of the suspicion
-- spans, so their masses add up to the mass of all.
pub attribute_claims_conserves :
    (findings spans : List Span)
    → let c = attribute_claims findings spans in
      Perm (c.attributed ++ c.unclaimed) spans × (mass c.attributed + mass c.unclaimed ≡ mass spans)
attribute_claims_conserves findings spans =
    let (a, u, _) = attribute_claims_lem findings spans in
    rw (a, u)
      (keep-perm (claimed findings) spans, sum_by-keep (λ s. s.magnitude) (claimed findings) spans)
