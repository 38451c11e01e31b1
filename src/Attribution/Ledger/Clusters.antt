-- ===== src/Attribution/Ledger/Clusters.antt =====
-- The clusters of the residue.
use sih.Prelude.{
  ℕ, ◌+◌, ◌≤◌, ◌<◌, ◌≡◌, refl, ap, max, false, String, List, [], ◌∷◌, ◌++◌, append_assoc, All,
  All-append, arith, Bool-cases, inl, inr, sum_by, sum_by-append, leb, Perm, ◌∙◌,
}
use sih.Prelude.Bytes.{Bytes}
use sih.Prelude.Keep.{All-map}
use sih.Prelude.Sort.{sort_by, Pairwise, Decides, sort_by-perm, sort_by-Pairwise, sum_by-sort_by}
use sih.Attribution.{Span}
use sih.Attribution.Claim.{mass}
use sih.Attribution.Predicates.{Library}
use sih.Attribution.Ledger.{
  ResidueCluster, starts_before, cluster, cluster_from, cluster_sorted, cluster_residue_spans,
}

abbrev pub members : List ResidueCluster → List Span
members [] = []
members (c ∷ cs) = c.spans ++ members cs

abbrev pub StartsFrom : Span → Span → Type 0
StartsFrom s t = s.start ≤ t.start

starts_before-Decides : Decides StartsFrom starts_before
unfolding starts_before
starts_before-Decides = record {
  may_stand = λ s t e. ground arith;
  must_follow = λ s t e. ground arith;
  transitive = λ s t u h k. omega arith;
}

-- A span lies within the bounds of a cluster.
abbrev pub Bounded : ResidueCluster → Span → Type 0
Bounded c s = (c.start ≤ s.start) × (s.stop ≤ c.stop)

abbrev pub IsSound : ResidueCluster → Type 0
IsSound c = (c.mass ≡ mass c.spans) × All (Bounded c) c.spans

-- The second cluster starts more than the gap behind the end of the first.
abbrev pub IsApart : ℕ → ResidueCluster → ResidueCluster → Type 0
IsApart gap c d = c.stop + gap < d.start

module _ (lib : Library) (content : Bytes) (hash : String) (gap : ℕ) where
  members-cluster_from :
      (start stop : ℕ) (spans rest : List Span)
      → members (cluster_from lib content hash gap start stop spans rest) ≡ spans ++ rest
  unfolding cluster_from cluster
  members-cluster_from start stop spans [] = refl
  members-cluster_from start stop spans (s ∷ rest) = elim (Bool-cases (leb s.start (stop + gap))) [
    | inl e ↦ rw (e) (
        rw (members-cluster_from start (max stop s.stop) (spans ++ s ∷ []) rest)
          (append_assoc spans (s ∷ []) rest))
    | inr e ↦ rw (e) (ap (◌++◌ spans) (members-cluster_from s.start s.stop (s ∷ []) rest))
  ]

  cluster_from_starts :
      (low start stop : ℕ) (spans rest : List Span)
      → low ≤ start
      → All (λ s. low ≤ s.start) rest
      → All (λ c. low ≤ c.start) (cluster_from lib content hash gap start stop spans rest)
  unfolding cluster_from cluster
  cluster_from_starts low start stop spans [] h a = (h, tt)
  cluster_from_starts low start stop spans (s ∷ rest) h (k, a) =
      elim (Bool-cases (leb s.start (stop + gap))) [
        | inl e ↦
            rw (e) (cluster_from_starts low start (max stop s.stop) (spans ++ s ∷ []) rest h a)
        | inr e ↦ rw (e) (h, cluster_from_starts low s.start s.stop (s ∷ []) rest k a)
      ]

  cluster_from-IsApart :
      (start stop : ℕ) (spans rest : List Span)
      → Pairwise StartsFrom rest
      → Pairwise (IsApart gap) (cluster_from lib content hash gap start stop spans rest)
  unfolding cluster_from cluster
  cluster_from-IsApart start stop spans [] p = (tt, tt)
  cluster_from-IsApart start stop spans (s ∷ rest) (a, p) =
      elim (Bool-cases (leb s.start (stop + gap))) [
        | inl e ↦ rw (e) (cluster_from-IsApart start (max stop s.stop) (spans ++ s ∷ []) rest p)
        | inr e ↦
            let after = ltb_of_not_leb s.start (stop + gap) e in
            let later = cluster_from_starts s.start s.start s.stop (s ∷ []) rest (omega arith) a in
            let ends = cluster_from lib content hash gap s.start s.stop (s ∷ []) rest in
            rw (e) (
              All-map (λ c. s.start ≤ c.start) (λ c. stop + gap < c.start) (λ c k. omega arith) ends
                  later,
              cluster_from-IsApart s.start s.stop (s ∷ []) rest p,
            )
      ]
    where
      ltb_of_not_leb : (m n : ℕ) → leb m n ≡ false → n < m
      ltb_of_not_leb m n h = ground arith

  cluster_from-IsSound :
      (start stop : ℕ) (spans rest : List Span)
      → All (λ s. (start ≤ s.start) × (s.stop ≤ stop)) spans
      → All (λ s. start ≤ s.start) rest
      → Pairwise StartsFrom rest
      → All IsSound (cluster_from lib content hash gap start stop spans rest)
  unfolding cluster_from cluster
  cluster_from-IsSound start stop spans [] b r p = ((refl, b), tt)
  cluster_from-IsSound start stop spans (s ∷ rest) b (k, r) (a, p) =
      elim (Bool-cases (leb s.start (stop + gap))) [
        | inl e ↦
            let wider =
              All-map (λ t. (start ≤ t.start) × (t.stop ≤ stop))
                (λ t. (start ≤ t.start) × (t.stop ≤ max stop s.stop)) (λ t h. (h.0, omega arith))
                spans b in
            let grown =
              All-append (λ t. (start ≤ t.start) × (t.stop ≤ max stop s.stop)) spans (s ∷ []) wider
                ((k, omega arith), tt) in
            rw (e) (cluster_from-IsSound start (max stop s.stop) (spans ++ s ∷ []) rest grown r p)
        | inr e ↦ rw (e) (
          (refl, b),
          cluster_from-IsSound s.start s.stop (s ∷ []) rest ((omega arith, omega arith), tt) a p,
        )
      ]

  members_mass :
      (cs : List ResidueCluster) → All IsSound cs → sum_by (λ c. c.mass) cs ≡ mass (members cs)
  members_mass [] a = refl
  members_mass (c ∷ cs) ((h, _), a) =
      omega (
        arith,
        h,
        members_mass cs a,
        sum_by-append (λ (s : Span). s.magnitude) c.spans (members cs),
      )

  cluster_sorted_lem :
      (xs : List Span)
      → Pairwise StartsFrom xs
      → All IsSound (cluster_sorted lib content hash gap xs)
        × Pairwise (IsApart gap) (cluster_sorted lib content hash gap xs)
  unfolding cluster_sorted
  cluster_sorted_lem [] p = (tt, tt)
  cluster_sorted_lem (s ∷ rest) (a, p) = (
    cluster_from-IsSound s.start s.stop (s ∷ []) rest ((omega arith, omega arith), tt) a p,
    cluster_from-IsApart s.start s.stop (s ∷ []) rest p,
  )

  members-cluster_sorted : (xs : List Span) → members (cluster_sorted lib content hash gap xs) ≡ xs
  unfolding cluster_sorted
  members-cluster_sorted [] = refl
  members-cluster_sorted (s ∷ rest) = members-cluster_from s.start s.stop (s ∷ []) rest

  -- Every cluster's mass is that of its spans, its bounds cover them, and a later cluster starts
  -- more than the gap behind the end of an earlier one.
  pub cluster_residue_spans_separates :
      (spans : List Span)
      → let cs = cluster_residue_spans lib content hash gap spans in
        All IsSound cs × Pairwise (IsApart gap) cs
  unfolding cluster_residue_spans
  cluster_residue_spans_separates spans =
      cluster_sorted_lem (sort_by starts_before spans)
        (sort_by-Pairwise StartsFrom starts_before starts_before-Decides spans)

  -- The clusters split the sorted residue: their spans one behind the other are the spans in the
  -- order of (start, end), a rearrangement of the residue, and their masses add up to its mass.
  pub cluster_residue_spans_covers :
      (spans : List Span)
      → let cs = cluster_residue_spans lib content hash gap spans in
        (members cs ≡ sort_by starts_before spans)
        × Perm (members cs) spans
        × (sum_by (λ c. c.mass) cs ≡ mass spans)
  unfolding cluster_residue_spans
  cluster_residue_spans_covers spans =
      let whole = members-cluster_sorted (sort_by starts_before spans) in
      let (sound, _) = cluster_residue_spans_separates spans in
      (
        whole,
        rw whole (sort_by-perm starts_before spans),
        members_mass (cluster_residue_spans lib content hash gap spans) sound
            ∙ ap mass whole
            ∙ sum_by-sort_by (λ s. s.magnitude) starts_before spans,
      )
