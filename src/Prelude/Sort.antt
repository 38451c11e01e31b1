-- ===== src/Prelude/Sort.antt =====
-- Python's `sorted`: a stable insertion by a Boolean test that says which entries may stand first.
use sih.Prelude.{
  ℕ, ◌+◌, sum_by, ◌≡◌, refl, Bool, true, false, List, [], ◌∷◌, arith, if◌then◌else◌, Bool-cases,
  inl, inr, All, Perm,
}
use sih.Prelude.Keep.{All-map}
use mathlib.Core.List.Perm

module _ {ℓ} {A : Type ℓ} where
  unfoldable pub insert_by : (A → A → Bool) → A → List A → List A
  insert_by le x [] = x ∷ []
  insert_by le x (y ∷ ys) = let rest = insert_by le x ys in if le x y then x ∷ y ∷ ys else y ∷ rest

  unfoldable pub sort_by : (A → A → Bool) → List A → List A
  sort_by le [] = []
  sort_by le (x ∷ xs) = insert_by le x (sort_by le xs)

  -- Each entry is related to every later one.
  abbrev pub Pairwise {κ} : (A → A → Type κ) → List A → Type κ
  Pairwise R [] = Unit
  Pairwise R (x ∷ xs) = All (R x) xs × Pairwise R xs

  pub insert_by-perm : (le : A → A → Bool) (x : A) (xs : List A) → Perm (insert_by le x xs) (x ∷ xs)
  unfolding insert_by
  insert_by-perm le x [] = Perm.refl (x ∷ [])
  insert_by-perm le x (y ∷ ys) = elim (Bool-cases (le x y)) [
    | inl e ↦ rw e (Perm.refl (x ∷ y ∷ ys))
    | inr e ↦ rw e (Perm.trans (Perm.cons y (insert_by-perm le x ys)) (Perm.swap x y ys))
  ]

  pub sort_by-perm : (le : A → A → Bool) (xs : List A) → Perm (sort_by le xs) xs
  unfolding sort_by
  sort_by-perm le [] = Perm.refl []
  sort_by-perm le (x ∷ xs) =
      Perm.trans (insert_by-perm le x (sort_by le xs)) (Perm.cons x (sort_by-perm le xs))

  sum_by-insert_by :
      (f : A → ℕ) (le : A → A → Bool) (x : A) (xs : List A)
      → sum_by f (insert_by le x xs) ≡ f x + sum_by f xs
  unfolding insert_by
  sum_by-insert_by f le x [] = refl
  sum_by-insert_by f le x (y ∷ ys) = ground (arith, sum_by-insert_by f le x ys)

  pub sum_by-sort_by :
      (f : A → ℕ) (le : A → A → Bool) (xs : List A) → sum_by f (sort_by le xs) ≡ sum_by f xs
  unfolding sort_by
  sum_by-sort_by f le [] = refl
  sum_by-sort_by f le (x ∷ xs) =
      omega (arith, sum_by-insert_by f le x (sort_by le xs), sum_by-sort_by f le xs)

  pub All-insert_by {κ} :
      (P : A → Type κ) (le : A → A → Bool) (x : A) (xs : List A)
      → P x
      → All P xs
      → All P (insert_by le x xs)
  unfolding insert_by
  All-insert_by P le x [] h a = (h, tt)
  All-insert_by P le x (y ∷ ys) h (k, a) = elim (Bool-cases (le x y)) [
    | inl e ↦ rw e (h, (k, a))
    | inr e ↦ rw e (k, All-insert_by P le x ys h a)
  ]

  -- The relation that the test decides.
  pub record Decides {κ} (R : A → A → Type κ) (le : A → A → Bool) : Type (ℓ ⊔ κ) where
    pub may_stand : (x y : A) → le x y ≡ true → R x y
    pub must_follow : (x y : A) → le x y ≡ false → R y x
    pub transitive : (x y z : A) → R x y → R y z → R x z

  module _ {κ} (R : A → A → Type κ) (le : A → A → Bool) (d : Decides R le) where
    pub insert_by-Pairwise : (x : A) (xs : List A) → Pairwise R xs → Pairwise R (insert_by le x xs)
    unfolding insert_by
    insert_by-Pairwise x [] p = (tt, tt)
    insert_by-Pairwise x (y ∷ ys) (a, p) = elim (Bool-cases (le x y)) [
      | inl e ↦
          let h = d.may_stand x y e in
          rw e ((h, All-map (R y) (R x) (λ z k. d.transitive x y z h k) ys a), (a, p))
      | inr e ↦
          rw e (All-insert_by (R y) le x ys (d.must_follow x y e) a, insert_by-Pairwise x ys p)
    ]

    pub sort_by-Pairwise : (xs : List A) → Pairwise R (sort_by le xs)
    unfolding sort_by
    sort_by-Pairwise [] = tt
    sort_by-Pairwise (x ∷ xs) = insert_by-Pairwise x (sort_by le xs) (sort_by-Pairwise xs)

module _ {ℓ} {A : Type ℓ} where
  pub All-sort_by {κ} :
      (P : A → Type κ) (le : A → A → Bool) (xs : List A) → All P xs → All P (sort_by le xs)
  unfolding sort_by
  All-sort_by P le [] a = tt
  All-sort_by P le (x ∷ xs) (h, a) = All-insert_by P le x (sort_by le xs) h (All-sort_by P le xs a)

  -- Each entry may stand before the next one.
  abbrev pub Heads : (A → A → Bool) → A → List A → Type 0
  Heads le x [] = Unit
  Heads le x (y ∷ ys) = le x y ≡ true

  abbrev pub IsChain : (A → A → Bool) → List A → Type 0
  IsChain le [] = Unit
  IsChain le (x ∷ xs) = Heads le x xs × IsChain le xs

  module _ (le : A → A → Bool) (total : (x y : A) → le x y ≡ false → le y x ≡ true) where
    insert_by-Heads :
        (z x : A) (xs : List A) → le z x ≡ true → Heads le z xs → Heads le z (insert_by le x xs)
    unfolding insert_by
    insert_by-Heads z x [] h k = h
    insert_by-Heads z x (y ∷ ys) h k = elim (Bool-cases (le x y)) [
      | inl e ↦ rw e h
      | inr e ↦ rw e k
    ]

    insert_by-IsChain : (x : A) (xs : List A) → IsChain le xs → IsChain le (insert_by le x xs)
    unfolding insert_by
    insert_by-IsChain x [] c = (tt, tt)
    insert_by-IsChain x (y ∷ ys) (h, c) = elim (Bool-cases (le x y)) [
      | inl e ↦ rw e (e, (h, c))
      | inr e ↦ rw e (insert_by-Heads y x ys (total x y e) h, insert_by-IsChain x ys c)
    ]

    -- Sorting puts every entry where it may stand before the next one.
    pub sort_by-IsChain : (xs : List A) → IsChain le (sort_by le xs)
    unfolding sort_by
    sort_by-IsChain [] = tt
    sort_by-IsChain (x ∷ xs) = insert_by-IsChain x (sort_by le xs) (sort_by-IsChain xs)
