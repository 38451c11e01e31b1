-- ===== src/Findings/Pages.antt =====
-- Walking through the pages of a result (backend/api/filtering.py, `paginate`).
use sih.Prelude.{
  ℕ, zero, suc, ◌+◌, ◌≤◌, ◌<◌, ◌≡◌, refl, sym, ap, ◌∙◌, Option, none, some, List, [], ◌∷◌, ◌++◌,
  length, take, drop, take-append-drop, length-drop, ltb, arith, Bool-cases, inl, inr, append-nil,
  if◌then◌else◌,
}
use sih.Prelude.Int.{ℤ, pos, ◌+ℤ◌}
use sih.Model.{Finding}
use sih.Findings.{offset_of, paginate}

-- The items that a client collects which asks for page after page, at most `fuel` of them, until
-- there is no cursor.
unfoldable pub walk : ℕ → Option ℤ → ℕ → List Finding → List Finding
walk zero cursor limit fs = []
walk (suc fuel) cursor limit fs =
    let page = paginate cursor limit fs in
    page.items ++ (elim page.cursor [ none ↦ [] | some next ↦ walk fuel (some next) limit fs ])

take_all : (n : ℕ) (fs : List Finding) → length fs ≤ n → take n fs ≡ fs
take_all zero [] h = refl
take_all zero (f ∷ fs) h = absurd (omega arith)
take_all (suc n) [] h = refl
take_all (suc n) (f ∷ fs) h = ap (◌∷◌ f) (take_all n fs (omega arith))

drop-nil : (n : ℕ) → drop {A = Finding} n [] ≡ []
drop-nil zero = refl
drop-nil (suc n) = refl

drop_all : (n : ℕ) (fs : List Finding) → length fs ≤ n → drop n fs ≡ []
drop_all zero [] h = refl
drop_all zero (f ∷ fs) h = absurd (omega arith)
drop_all (suc n) [] h = refl
drop_all (suc n) (f ∷ fs) h = drop_all n fs (omega arith)

drop_at : (m n : ℕ) (fs : List Finding) → m ≡ n → drop m fs ≡ drop n fs
drop_at m n fs e = rw e refl

drop_add : (m n : ℕ) (fs : List Finding) → drop n (drop m fs) ≡ drop (m + n) fs
drop_add zero n fs = drop_at n (0 + n) fs (omega arith)
drop_add (suc m) n [] = drop-nil n ∙ sym (drop-nil (suc m + n))
drop_add (suc m) n (f ∷ fs) =
    drop_add m n fs ∙ drop_at (suc (m + n)) (suc m + n) (f ∷ fs) (omega arith)

pos_sum : (a b : ℕ) → pos a +ℤ pos b ≡ pos (a + b)
unfolding ◌+ℤ◌
pos_sum a b = ground arith

-- A page from a cursor that is not negative.
page_items :
    (o limit : ℕ) (fs : List Finding)
    → (paginate (some (pos o)) limit fs).items ≡ take limit (drop o fs)
unfolding paginate offset_of
page_items o limit fs = rw (pos_sum o limit) (ap (λ k. take k (drop o fs)) (omega arith))

page_cursor :
    (o limit : ℕ) (fs : List Finding)
    → (paginate (some (pos o)) limit fs).cursor
      ≡ (if ltb (o + limit) (length fs) then some (pos (o + limit)) else none)
unfolding paginate offset_of
page_cursor o limit fs = rw (pos_sum o limit) (ground arith)

walk_from :
    (fuel o limit : ℕ) (fs : List Finding)
    → 1 ≤ limit
    → length fs < fuel + o
    → walk fuel (some (pos o)) limit fs ≡ drop o fs
unfolding walk
walk_from zero o limit fs h k = sym (drop_all o fs (omega arith))
walk_from (suc fuel) o limit fs h k = elim (Bool-cases (ltb (o + limit) (length fs))) [
  | inl e ↦
      rw (page_items o limit fs, page_cursor o limit fs)
        (rw e (
          ap (◌++◌ (take limit (drop o fs)))
            (walk_from fuel (o + limit) limit fs h (omega arith) ∙ sym (drop_add o limit fs))
          ∙ take-append-drop limit (drop o fs)))
  | inr e ↦
      rw (page_items o limit fs, page_cursor o limit fs)
        (rw e (
          append-nil (take limit (drop o fs))
          ∙ take_all limit (drop o fs) (ground (arith, length-drop o fs))))
]

walk_first :
    (fuel limit : ℕ) (fs : List Finding)
    → walk fuel none limit fs ≡ walk fuel (some (pos 0)) limit fs
unfolding walk paginate offset_of
walk_first zero limit fs = refl
walk_first (suc fuel) limit fs = refl

-- A client that starts without a cursor and follows the cursors, with a limit above 0, collects
-- every finding exactly once and in order, within as many pages as there are findings and one.
pub walk_lem :
    (limit : ℕ) (fs : List Finding) → 1 ≤ limit → walk (suc (length fs)) none limit fs ≡ fs
walk_lem limit fs h =
    walk_first (suc (length fs)) limit fs ∙ walk_from (suc (length fs)) 0 limit fs h (omega arith)
