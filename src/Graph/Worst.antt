-- ===== src/Graph/Worst.antt =====
-- The band of a node is the worst one of its findings.
use sih.Prelude.{
  ◌≤◌, ◌≡◌, refl, Bool, true, Option, none, some, String, List, [], ◌∷◌, map, any, ltb, arith, All,
  Bool-cases, inl, inr,
}
use sih.Model.{Finding, RiskBand, band_rank, band_eq}
use sih.Graph.{worse, worst_from, worst_band, risks_of, root_node}

worse_bound :
    (a b : RiskBand) → (band_rank a ≤ band_rank (worse a b)) × (band_rank b ≤ band_rank (worse a b))
unfolding worse
worse_bound a b = (ground arith, ground arith)

worst_from_bound :
    (b : RiskBand) (bs : List RiskBand)
    → (band_rank b ≤ band_rank (worst_from b bs))
      × All (λ c. band_rank c ≤ band_rank (worst_from b bs)) bs
unfolding worst_from
worst_from_bound b [] = (omega arith, tt)
worst_from_bound b (c ∷ bs) =
    let (l, r) = worse_bound b c in
    let (h, a) = worst_from_bound (worse b c) bs in (omega arith, (omega arith, a))

-- The band `w` is one of the list's, and none of them is worse.
abbrev pub IsWorst : RiskBand → List RiskBand → Type 0
IsWorst w bs = (any (λ b. band_eq b w) bs ≡ true) × All (λ b. band_rank b ≤ band_rank w) bs

worse_member :
    (p : RiskBand → Bool) (b c : RiskBand) (bs : List RiskBand)
    → any p (worse b c ∷ bs) ≡ true
    → any p (b ∷ c ∷ bs) ≡ true
unfolding worse
worse_member p b c bs h = elim (Bool-cases (ltb (band_rank b) (band_rank c))) [
  | inl e ↦ let k = rw e at h in ground arith
  | inr e ↦ let k = rw e at h in ground arith
]

worst_from_member :
    (p : RiskBand → Bool) (b : RiskBand) (bs : List RiskBand)
    → p (worst_from b bs) ≡ true
    → any p (b ∷ bs) ≡ true
unfolding worst_from
worst_from_member p b [] h = rw h refl
worst_from_member p b (c ∷ bs) h = worse_member p b c bs (worst_from_member p (worse b c) bs h)

band_eq_refl : (b : RiskBand) → band_eq b b ≡ true
unfolding band_eq
band_eq_refl b = ground arith

abbrev pub HasWorst : List RiskBand → Option RiskBand → Type 0
HasWorst [] o = o ≡ none
HasWorst (b ∷ bs) none = ⊥
HasWorst (b ∷ bs) (some w) = IsWorst w (b ∷ bs)

-- The root has no band when no finding has a risk, and else the worst band of the risks.
pub root_band_lem :
    (file_node_id : String → String) (target : String) (fs : List Finding)
    → HasWorst (map (λ r. r.band) (risks_of fs)) (root_node file_node_id target fs).band
unfolding root_node worst_band
root_band_lem file_node_id target fs = worst (map (λ r. r.band) (risks_of fs))
  where
    worst : (bs : List RiskBand) → HasWorst bs (worst_band bs)
    worst [] = refl
    worst (b ∷ bs) = (
      worst_from_member (λ c. band_eq c (worst_from b bs)) b bs (band_eq_refl (worst_from b bs)),
      worst_from_bound b bs,
    )
