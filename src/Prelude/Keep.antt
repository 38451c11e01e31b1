-- ===== src/Prelude/Keep.antt =====
-- The laws of `keep`, the entries of a list that pass a Boolean test.
use sih.Prelude.{
  ℕ, ◌+◌, sym, none, none-some, ◌≤◌, ◌≡◌, refl, Bool, true, false, List, [], ◌∷◌, ◌++◌, arith,
  length, Bool-cases, inl, inr, keep, All, sum_by, not, any, find?, some, ◌⊎◌, subst, some_inj, ap,
  map, if◌then◌else◌,
}
use mathlib.Core.List.{Perm, perm_middle}
use mathlib.Core.List.Perm

module _ {ℓ} {A : Type ℓ} where
  pub All-keep {κ} : (P : A → Type κ) (p : A → Bool) (xs : List A) → All P xs → All P (keep p xs)
  All-keep P p [] a = tt
  All-keep P p (x ∷ xs) (h, a) = elim (Bool-cases (p x)) [
    | inl e ↦ rw e (h, All-keep P p xs a)
    | inr e ↦ rw e (All-keep P p xs a)
  ]

  pub keep-append : (p : A → Bool) (xs ys : List A) → keep p (xs ++ ys) ≡ keep p xs ++ keep p ys
  keep-append p [] ys = refl
  keep-append p (x ∷ xs) ys = ground (arith, keep-append p xs ys)

  -- Every entry that is kept passes the test.
  pub keep_passes : (p : A → Bool) (xs : List A) → All (λ x. p x ≡ true) (keep p xs)
  keep_passes p [] = tt
  keep_passes p (x ∷ xs) = elim (Bool-cases (p x)) [
    | inl e ↦ rw e (e, keep_passes p xs)
    | inr e ↦ rw e (keep_passes p xs)
  ]

  -- A test that is stricter on every entry keeps at most as many.
  pub length-keep_mono :
      (p q : A → Bool) (xs : List A)
      → ((x : A) → p x ≡ true → q x ≡ true)
      → length (keep p xs) ≤ length (keep q xs)
  length-keep_mono p q [] h = omega arith
  length-keep_mono p q (x ∷ xs) h = ground (arith, h x, length-keep_mono p q xs h)

  pub length-keep : (p : A → Bool) (xs : List A) → length (keep p xs) ≤ length xs
  length-keep p [] = omega arith
  length-keep p (x ∷ xs) = ground (arith, length-keep p xs)

  -- The entries that pass and those that do not make up the list.
  pub sum_by-keep :
      (f : A → ℕ) (p : A → Bool) (xs : List A)
      → sum_by f (keep p xs) + sum_by f (keep (λ x. not (p x)) xs) ≡ sum_by f xs
  sum_by-keep f p [] = omega arith
  sum_by-keep f p (x ∷ xs) = ground (arith, sum_by-keep f p xs)

  pub All-map {κ μ} :
      (P : A → Type κ) (Q : A → Type μ)
      → ((x : A) → P x → Q x)
      → (xs : List A) → All P xs
      → All Q xs
  All-map P Q f [] a = tt
  All-map P Q f (x ∷ xs) (h, a) = (f x h, All-map P Q f xs a)

module _ {ℓ} {A : Type ℓ} where
  pub any_of_keep-nil : (p : A → Bool) (xs : List A) → keep p xs ≡ [] → any p xs ≡ false
  any_of_keep-nil p [] e = refl
  any_of_keep-nil p (x ∷ xs) e = ground (arith, any_of_keep-nil p xs)

  pub any_of_keep-cons :
      (p : A → Bool) (xs : List A) (y : A) (ys : List A) → keep p xs ≡ y ∷ ys → any p xs ≡ true
  any_of_keep-cons p [] y ys e = ground arith
  any_of_keep-cons p (x ∷ xs) y ys e = ground (arith, any_of_keep-cons p xs y ys)

  pub find?_of_any :
      (p : A → Bool) (xs : List A) → any p xs ≡ true → (x : A) × (find? p xs ≡ some x)
  find?_of_any p [] h = ground arith
  find?_of_any p (x ∷ xs) h = elim (Bool-cases (p x)) [
    | inl e ↦ rw e (x, refl)
    | inr e ↦ rw e (find?_of_any p xs (ground arith))
  ]

  pub List-cases : (xs : List A) → (xs ≡ []) ⊎ ((y : A) × (ys : List A) × (xs ≡ y ∷ ys))
  List-cases [] = inl refl
  List-cases (y ∷ ys) = inr (y, ys, refl)

-- A list is a rearrangement of the entries that pass and those that do not.
pub keep-perm {ℓ} :
    {A : Type ℓ} (p : A → Bool) (xs : List A) → Perm (keep p xs ++ keep (λ x. not (p x)) xs) xs
keep-perm p [] = Perm.refl []
keep-perm p (x ∷ xs) = elim (Bool-cases (p x)) [
  | inl e ↦ rw e (Perm.cons x (keep-perm p xs))
  | inr e ↦ rw e (
      Perm.trans (perm_middle {a = x} (keep p xs) (keep (λ y. not (p y)) xs))
        (Perm.cons x (keep-perm p xs)))
]

-- Entries that pass another test are not among those that are taken out.
module _ {ℓ} {A : Type ℓ} (p q : A → Bool) (apart : (x : A) → p x ≡ true → q x ≡ false) where
  pub keep-keep_apart : (xs : List A) → keep q (keep (λ x. not (p x)) xs) ≡ keep q xs
  keep-keep_apart [] = refl
  keep-keep_apart (x ∷ xs) = ground (arith, keep-keep_apart xs, apart x)

  pub find?-keep_apart : (xs : List A) → find? q (keep (λ x. not (p x)) xs) ≡ find? q xs
  find?-keep_apart [] = refl
  find?-keep_apart (x ∷ xs) = ground (arith, find?-keep_apart xs, apart x)

pub find?-append_other {ℓ} :
    {A : Type ℓ} (q : A → Bool) (xs : List A) (y : A)
    → q y ≡ false
    → find? q (xs ++ y ∷ []) ≡ find? q xs
find?-append_other q [] y h = ground (arith, h)
find?-append_other q (x ∷ xs) y h = ground (arith, find?-append_other q xs y h)

pub find?-append_new {ℓ} :
    {A : Type ℓ} (q : A → Bool) (xs : List A) (y : A)
    → q y ≡ true
    → find? q xs ≡ none
    → find? q (xs ++ y ∷ []) ≡ some y
find?-append_new q [] y h n = ground (arith, h)
find?-append_new q (x ∷ xs) y h n = elim (Bool-cases (q x)) [
  | inl e ↦ absurd (none-some (sym (rw e at n)))
  | inr e ↦ rw e (find?-append_new q xs y h (rw e at n))
]

pub find?-keep-not {ℓ} :
    {A : Type ℓ} (q : A → Bool) (xs : List A) → find? q (keep (λ x. not (q x)) xs) ≡ none
find?-keep-not q [] = refl
find?-keep-not q (x ∷ xs) = ground (arith, find?-keep-not q xs)

pub find?_replaced {ℓ} :
    {A : Type ℓ} (p : A → Bool) (xs : List A) (y : A)
    → p y ≡ true
    → find? p (keep (λ x. not (p x)) xs ++ y ∷ []) ≡ some y
find?_replaced p xs y e = find?-append_new p (keep (λ x. not (p x)) xs) y e (find?-keep-not p xs)

pub keep-keep-not {ℓ} :
    {A : Type ℓ} (p : A → Bool) (xs : List A) → keep p (keep (λ x. not (p x)) xs) ≡ []
keep-keep-not p [] = refl
keep-keep-not p (x ∷ xs) = ground (arith, keep-keep-not p xs)

pub find?-true {ℓ} :
    {A : Type ℓ} (p : A → Bool) (xs : List A) (x : A) → find? p xs ≡ some x → p x ≡ true
find?-true p [] x e = absurd (none-some e)
find?-true p (y ∷ ys) x e = elim (Bool-cases (p y)) [
  | inl k ↦ subst (λ z. p z ≡ true) (some_inj (rw k at e)) k
  | inr k ↦ find?-true p ys x (rw k at e)
]

-- A change of the entries that pass, which still pass: the first of them is found changed.
pub find?-map_changed {ℓ} :
    {A : Type ℓ} (p : A → Bool) (change : A → A) (xs : List A) (x : A)
    → ((y : A) → p y ≡ true → p (change y) ≡ true)
    → find? p xs ≡ some x
    → find? p (map (λ y. if p y then change y else y) xs) ≡ some (change x)
find?-map_changed p change [] x passes e = absurd (none-some e)
find?-map_changed p change (y ∷ ys) x passes e = elim (Bool-cases (p y)) [
  | inl k ↦ rw k (rw (passes y k) (ap (λ z. some (change z)) (some_inj (rw k at e))))
  | inr k ↦ rw k (rw k (find?-map_changed p change ys x passes (rw k at e)))
]

-- Entries that pass another test, before the change and after it, do not see it.
pub find?-map_apart {ℓ} :
    {A : Type ℓ} (p q : A → Bool) (change : A → A) (xs : List A)
    → ((y : A) → p y ≡ true → (q y ≡ false) × (q (change y) ≡ false))
    → find? q (map (λ y. if p y then change y else y) xs) ≡ find? q xs
find?-map_apart p q change [] apart = refl
find?-map_apart p q change (y ∷ ys) apart = elim (Bool-cases (p y)) [
  | inl k ↦ let (a, b) = apart y k in rw (k, a) (rw b (find?-map_apart p q change ys apart))
  | inr k ↦ rw k (rw (find?-map_apart p q change ys apart))
]
