-- ===== src/Estate/Targets.antt =====
-- Targets: what is read back after a change.
use sih.Prelude.{
  ℕ, ◌≡◌, refl, sym, ap, true, false, not, none, some, String, List, [], ◌∷◌, ◌++◌, keep, arith,
  Bool-cases, Option-cases, inl, inr, some_inj, none-some,
}
use sih.Prelude.Bytes.{Bytes}
use sih.Prelude.Text.{str_eq, eq_refl}
use sih.Audit.{Hashing}
use sih.Estate.{
  TargetRecord, TargetCreate, TargetPatch, Store, get_target, update_target, patched_target,
  create_target, patch_target, delete_target,
}

get_target-keep :
    (id : String) (rows : List TargetRecord)
    → get_target id (keep (λ s. not (str_eq s.id id)) rows) ≡ none
unfolding get_target
get_target-keep id [] = refl
get_target-keep id (r ∷ rows) = elim (Bool-cases (str_eq r.id id)) [
  | inl e ↦ rw e (get_target-keep id rows)
  | inr e ↦ rw e (rw e (get_target-keep id rows))
]

get_target-update_target :
    (id : String) (p : TargetPatch) (rows : List TargetRecord) (r : TargetRecord)
    → get_target id rows ≡ some r
    → get_target id (update_target id (patched_target p) rows) ≡ some (patched_target p r)
unfolding get_target update_target patched_target
get_target-update_target id p [] r e = ground arith
get_target-update_target id p (s ∷ rows) r e = elim (Bool-cases (str_eq s.id id)) [
  | inl k ↦ rw k (rw k (ap (λ x. some (patched_target p x)) (some_inj (rw (k, get_target) at e))))
  | inr k ↦ rw k (rw k (get_target-update_target id p rows r (rw (k, get_target) at e)))
]

get_target-append :
    (id : String) (rows : List TargetRecord) (r : TargetRecord)
    → get_target id rows ≡ none
    → r.id ≡ id
    → get_target id (rows ++ r ∷ []) ≡ some r
unfolding get_target
get_target-append id [] r e i = rw (i) (rw (eq_refl id) refl)
get_target-append id (s ∷ rows) r e i = elim (Bool-cases (str_eq s.id id)) [
  | inl k ↦ absurd (none-some (sym (rw (k, get_target) at e)))
  | inr k ↦ rw k (get_target-append id rows r (rw (k, get_target) at e) i)
]

module _ (h : Hashing) (created : String → h.Detail) (current : Bytes) where
  -- What is read back: a target that is created under an id that is not taken, the changed target
  -- that a patch answers with (or none, if there is none), and nothing after a deletion.
  pub target_changes :
      (id : String) (now : ℕ) (new : TargetCreate) (p : TargetPatch) (st : Store h)
      → let (target, after_create) = create_target h created current id now new st in
        let (answer, after_patch) = patch_target h created current id p st in
        let (found, after_delete) = delete_target h created current id st in
        (get_target id st.targets ≡ none → get_target id after_create.targets ≡ some target)
        × (get_target id after_patch.targets ≡ answer)
        × (get_target id after_delete.targets ≡ none)
        × (found ≡ false → after_delete ≡ st)
  unfolding create_target patch_target delete_target
  target_changes id now new p st = elim (Option-cases (get_target id st.targets)) [
    | inl e ↦
        rw (e, patch_target, delete_target)
          (
            (λ f.
                get_target-append id st.targets (create_target h created current id now new st).0 e
                  refl),
            e,
            e,
            (λ f. refl),
          )
    | inr (r, e) ↦
        rw (e, patch_target, delete_target)
          (
            (λ f. absurd (none-some (sym f))),
            get_target-update_target id p st.targets r e,
            get_target-keep id st.targets,
            (λ f. absurd (clash f)),
          )
  ]
    where
      clash : true ≡ false → ⊥
      clash f = ground arith
