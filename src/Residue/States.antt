-- ===== src/Residue/States.antt =====
-- What a request may do to the clusters (backend/api/routes/residue.py).
use sih.Prelude.{
  ℕ, ◌≡◌, refl, sym, subst, true, false, not, ◌&&◌, Option, none, some, String, arith, All,
  Bool-cases, inl, inr, ◌⊎◌, Option-cases,
}
use sih.Prelude.Bytes.{Bytes}
use sih.Audit.{Hashing, intact, log_audit, verify_audit_log_integrity}
use sih.Audit.Chain.{HasWidth, log_audit-verify_audit_log_integrity}
use sih.Residue.{
  ResidueClusterState, is_promoted, is_excluded, ResidueClusterRecord, ResidueClusterPatch,
  is_blank, locate, given_or, patched, save_row, Reply, ok, Store, transition_entry,
  patch_residue_cluster, reply_with, patch_existing, patch_route,
}
use sih.Residue.Rows.{
  IsJustified, StaysPromoted, StaysPromoted-refl, save_row-IsKeyed, save_row-StaysPromoted,
  All-save_row, locate-All, IsKeyed, IsOnly, IsKeyed→IsOnly,
}

-- The conditions under which the route makes the change `p` to the cluster `r`.
abbrev pub MayChange : ResidueClusterRecord → ResidueClusterPatch → Type 0
MayChange r p =
    (is_excluded p.state ≡ true → (is_blank p.justification ≡ false) × (is_blank p.owner ≡ false))
    × (is_promoted r.state ≡ true → is_promoted p.state ≡ true)

module _ (h : Hashing)
    (detail : ResidueClusterState → ResidueClusterState → Option Bytes → Option Bytes → h.Detail)
    (current : Bytes) (now : ℕ) where
  abbrev pub route : String → ResidueClusterPatch → Store h → Reply × Store h
  route = patch_route h detail current now

  abbrev pub changed : ResidueClusterRecord → ResidueClusterPatch → Store h → Store h
  changed r p st = record st {
    rows = save_row (patched now p r) st.rows;
    log = log_audit h current (transition_entry h detail current now r (patched now p r)) st.log;
  }

  abbrev pub IsChange : String → ResidueClusterPatch → Store h → Reply × Store h → Type 0
  IsChange cluster_id p st o =
      (r : ResidueClusterRecord) × (locate cluster_id st.rows ≡ some r)
      × MayChange r p
      × (o.0 ≡ ok (patched now p r))
      × (o.1 ≡ changed r p st)

  patch_found :
      (cluster_id : String) (p : ResidueClusterPatch) (st : Store h) (r : ResidueClusterRecord)
      → locate cluster_id st.rows ≡ some r
      → patch_residue_cluster h detail current now cluster_id p st
        ≡ (some (patched now p r), changed r p st)
  unfolding patch_residue_cluster
  patch_found cluster_id p st r e = rw (e, patch_residue_cluster) refl

  patch_existing_lem :
      (cluster_id : String) (p : ResidueClusterPatch) (st : Store h) (r : ResidueClusterRecord)
      → locate cluster_id st.rows ≡ some r
      → let o = patch_existing h detail current now cluster_id p r st in
        (o.1 ≡ st) ⊎ IsChange cluster_id p st o
  unfolding patch_existing reply_with
  patch_existing_lem cluster_id p st r e =
      elim (Bool-cases (is_excluded p.state && is_blank p.justification)) [
        | inl j ↦ inl (rw (j, patch_existing) refl)
        | inr j ↦ elim (Bool-cases (is_excluded p.state && is_blank p.owner)) [
          | inl o ↦ inl (rw (j, o, patch_existing) refl)
          | inr o ↦ elim (Bool-cases (is_promoted r.state && not (is_promoted p.state))) [
            | inl t ↦ inl (rw (j, o, t, patch_existing) refl)
            | inr t ↦
                let may : MayChange r p =
                  ((λ x. (ground arith, ground arith)), (λ x. ground arith)) in
                inr (
                  rw (j, o, t, patch_existing)
                    (rw (patch_found cluster_id p st r e) (r, e, may, refl, refl)))
          ]
        ]
      ]

  route_found :
      (cluster_id : String) (p : ResidueClusterPatch) (st : Store h) (r : ResidueClusterRecord)
      → locate cluster_id st.rows ≡ some r
      → route cluster_id p st ≡ patch_existing h detail current now cluster_id p r st
  unfolding patch_route
  route_found cluster_id p st r e = rw (e, patch_route) refl

  -- Either the store is as before, or the cluster that the id names is changed as the patch says,
  -- under the conditions of the route: an exclusion has a justification and an owner that are not
  -- blank, and a promoted cluster stays promoted. The audit log has one row more, and the answer
  -- is the changed cluster.
  pub patch_route_lem :
      (cluster_id : String) (p : ResidueClusterPatch) (st : Store h)
      → let o = route cluster_id p st in (o.1 ≡ st) ⊎ IsChange cluster_id p st o
  unfolding patch_route
  patch_route_lem cluster_id p st = elim (Option-cases (locate cluster_id st.rows)) [
    | inl e ↦ inl (rw (e, patch_route) refl)
    | inr (r, e) ↦
        subst (λ o. (o.1 ≡ st) ⊎ IsChange cluster_id p st o) (sym (route_found cluster_id p st r e))
          (patch_existing_lem cluster_id p st r e)
  ]

  -- A request leaves an intact audit log intact.
  pub patch_route-intact :
      HasWidth h
      → (cluster_id : String) (p : ResidueClusterPatch) (st : Store h)
      → verify_audit_log_integrity h st.log ≡ intact
      → verify_audit_log_integrity h (route cluster_id p st).1.log ≡ intact
  patch_route-intact w cluster_id p st v = elim (patch_route_lem cluster_id p st) [
    | inl e ↦ subst (λ s. verify_audit_log_integrity h s.log ≡ intact) (sym e) v
    | inr (r, _, _, _, e) ↦
        subst (λ s. verify_audit_log_integrity h s.log ≡ intact) (sym e)
          (log_audit-verify_audit_log_integrity h w current
            (transition_entry h detail current now r (patched now p r)) st.log v)
  ]

  patched-IsJustified :
      (p : ResidueClusterPatch) (r : ResidueClusterRecord)
      → MayChange r p
      → IsJustified (patched now p r)
  unfolding patched given_or is_blank
  patched-IsJustified p r (j, _) x = blanks p.justification p.owner (j x)
    where
      blank_none : is_blank none ≡ false → ⊥
      blank_none e = ground arith

      blanks :
          (a b : Option Bytes)
          → (is_blank a ≡ false) × (is_blank b ≡ false)
          → (is_blank (given_or a r.justification) ≡ false)
            × (is_blank (given_or b r.owner) ≡ false)
      blanks none b (e, f) = absurd (blank_none e)
      blanks (some a) none (e, f) = absurd (blank_none f)
      blanks (some a) (some b) k = k

  -- A request keeps the rows keyed by their ids, keeps what is promoted promoted, and keeps every
  -- exclusion justified.
  pub patch_route_keeps :
      (cluster_id : String) (p : ResidueClusterPatch) (st : Store h)
      → IsKeyed st.rows
      → let st' = (route cluster_id p st).1 in
        IsKeyed st'.rows
        × StaysPromoted st.rows st'.rows
        × (All IsJustified st.rows → All IsJustified st'.rows)
  unfolding patched
  patch_route_keeps cluster_id p st k = elim (patch_route_lem cluster_id p st) [
    | inl e ↦
        subst
          (λ s.
            IsKeyed s.rows
            × StaysPromoted st.rows s.rows
            × (All IsJustified st.rows → All IsJustified s.rows))
          (sym e) (k, StaysPromoted-refl st.rows, λ a. a)
    | inr (r, l, may, _, e) ↦
        let new = patched now p r in
        let only = locate-All (IsOnly st.rows) cluster_id st.rows r (IsKeyed→IsOnly st.rows k) l in
        subst
          (λ s.
            IsKeyed s.rows
            × StaysPromoted st.rows s.rows
            × (All IsJustified st.rows → All IsJustified s.rows))
          (sym e)
          (
            save_row-IsKeyed new st.rows k,
            save_row-StaysPromoted new r st.rows (patched_id p r)
                (λ t. patched_promoted p r (may.1 t)) only,
            λ a. All-save_row IsJustified new st.rows (patched-IsJustified p r may) a,
          )
  ]
    where
      patched_id :
          (p : ResidueClusterPatch) (r : ResidueClusterRecord) → (patched now p r).id ≡ r.id
      patched_id p r = refl

      patched_promoted :
          (p : ResidueClusterPatch) (r : ResidueClusterRecord)
          → is_promoted p.state ≡ true
          → is_promoted (patched now p r).state ≡ true
      patched_promoted p r e = e
