-- ===== src/Residue/Rows.antt =====
-- Rows by their primary key: looking up and saving.
use sih.Prelude.{
  ◌≡◌, refl, sym, ◌∙◌, ap, Bool, true, false, some, String, List, [], ◌∷◌, ◌++◌, find?, arith, All,
  Bool-cases, inl, inr, subst, some_inj, none-some, Option-cases,
}
use sih.Prelude.Keep.{All-map}
use sih.Prelude.Sort.{Pairwise}
use sih.Prelude.Text.{str_eq, eq_iff}
use sih.Residue.{is_promoted, is_excluded, is_blank, ResidueClusterRecord, locate, save_row}

pub find?-All {ℓ κ} :
    {A : Type ℓ} (P : A → Type κ) (p : A → Bool) (xs : List A) (x : A)
    → All P xs
    → find? p xs ≡ some x
    → P x
find?-All P p [] x a e = absurd (none-some e)
find?-All P p (y ∷ ys) x (h, a) e = elim (Bool-cases (p y)) [
  | inl k ↦ subst P (some_inj (rw k at e)) h
  | inr k ↦ find?-All P p ys x a (rw k at e)
]

pub locate-All {κ} :
    (P : ResidueClusterRecord → Type κ) (cluster_id : String) (rows : List ResidueClusterRecord)
    (r : ResidueClusterRecord)
    → All P rows
    → locate cluster_id rows ≡ some r
    → P r
unfolding locate
locate-All P cluster_id rows r a e =
    elim (Option-cases (find? (λ s. str_eq s.id cluster_id) rows)) [
      | inl k ↦ find?-All P (λ s. str_eq s.content_hash cluster_id) rows r a (rw (k, locate) at e)
      | inr (s, k) ↦ find?-All P (λ s. str_eq s.id cluster_id) rows r a (k ∙ (rw (k, locate) at e))
    ]

-- The primary key: no two rows have one id.
abbrev pub HasOtherId : ResidueClusterRecord → ResidueClusterRecord → Type 0
HasOtherId r s = str_eq r.id s.id ≡ false

abbrev pub IsKeyed : List ResidueClusterRecord → Type 0
IsKeyed rows = Pairwise HasOtherId rows

-- A row of the table with the id of `r` is `r`.
abbrev pub IsOnly : List ResidueClusterRecord → ResidueClusterRecord → Type 0
IsOnly rows r = All (λ s. str_eq s.id r.id ≡ true → s ≡ r) rows

str_eq_sym : (a b : String) → str_eq a b ≡ true → str_eq b a ≡ true
str_eq_sym a b e = ground (arith, eq_iff a b, eq_iff b a)

pub IsKeyed→IsOnly : (rows : List ResidueClusterRecord) → IsKeyed rows → All (IsOnly rows) rows
IsKeyed→IsOnly [] k = tt
IsKeyed→IsOnly (r ∷ rows) (a, k) = (
  (
    (λ e. refl),
    All-map (HasOtherId r) (λ s. str_eq s.id r.id ≡ true → s ≡ r) (λ s o e. absurd (clash r s o e))
        rows a,
  ),
  extend rows a (IsKeyed→IsOnly rows k),
)
  where
    clash : (r s : ResidueClusterRecord) → HasOtherId r s → str_eq s.id r.id ≡ true → ⊥
    clash r s o e = ground (arith, str_eq_sym s.id r.id)

    extend :
        (ss : List ResidueClusterRecord)
        → All (HasOtherId r) ss
        → All (IsOnly rows) ss
        → All (IsOnly (r ∷ rows)) ss
    extend [] a b = tt
    extend (s ∷ ss) (o, a) (h, b) = (((λ e. absurd (no s o e)), h), extend ss a b)
      where
        no : (s : ResidueClusterRecord) → HasOtherId r s → str_eq r.id s.id ≡ true → ⊥
        no s o e = ground arith

-- An excluded cluster names why and who, in texts that are not blank.
abbrev pub IsJustified : ResidueClusterRecord → Type 0
IsJustified r =
    is_excluded r.state ≡ true → (is_blank r.justification ≡ false) × (is_blank r.owner ≡ false)

-- Row by row: the ids stay, and what was promoted is promoted.
abbrev pub StaysPromoted : List ResidueClusterRecord → List ResidueClusterRecord → Type 0
StaysPromoted [] after = Unit
StaysPromoted (r ∷ rows) [] = ⊥
StaysPromoted (r ∷ rows) (s ∷ after) =
    ((r.id ≡ s.id) × (is_promoted r.state ≡ true → is_promoted s.state ≡ true))
    × StaysPromoted rows after

pub StaysPromoted-refl : (rows : List ResidueClusterRecord) → StaysPromoted rows rows
StaysPromoted-refl [] = tt
StaysPromoted-refl (r ∷ rows) = ((refl, λ e. e), StaysPromoted-refl rows)

pub StaysPromoted-trans :
    (a b c : List ResidueClusterRecord) → StaysPromoted a b → StaysPromoted b c → StaysPromoted a c
StaysPromoted-trans [] b c h k = tt
StaysPromoted-trans (x ∷ a) [] c h k = absurd h
StaysPromoted-trans (x ∷ a) (y ∷ b) [] h k = absurd k
StaysPromoted-trans (x ∷ a) (y ∷ b) (z ∷ c) ((e, f), h) ((e', f'), k) =
    ((e ∙ e', λ p. f' (f p)), StaysPromoted-trans a b c h k)

pub StaysPromoted-append :
    (rows more : List ResidueClusterRecord) → StaysPromoted rows (rows ++ more)
StaysPromoted-append [] more = tt
StaysPromoted-append (r ∷ rows) more = ((refl, λ e. e), StaysPromoted-append rows more)

pub All-save_row {κ} :
    (P : ResidueClusterRecord → Type κ) (new : ResidueClusterRecord)
    (rows : List ResidueClusterRecord)
    → P new
    → All P rows
    → All P (save_row new rows)
unfolding save_row
All-save_row P new [] n a = tt
All-save_row P new (r ∷ rows) n (h, a) = elim (Bool-cases (str_eq r.id new.id)) [
  | inl e ↦ rw e (n, All-save_row P new rows n a)
  | inr e ↦ rw e (h, All-save_row P new rows n a)
]

-- Saving a row leaves the ids as they are.
save_row-HasOtherId :
    (x new : ResidueClusterRecord) (rows : List ResidueClusterRecord)
    → All (HasOtherId x) rows
    → All (HasOtherId x) (save_row new rows)
unfolding save_row
save_row-HasOtherId x new [] a = tt
save_row-HasOtherId x new (r ∷ rows) (h, a) = elim (Bool-cases (str_eq r.id new.id)) [
  | inl e ↦
      let same : r.id ≡ new.id = ground (arith, eq_iff r.id new.id) in
      rw e (subst (λ i. str_eq x.id i ≡ false) same h, save_row-HasOtherId x new rows a)
  | inr e ↦ rw e (h, save_row-HasOtherId x new rows a)
]

pub save_row-IsKeyed :
    (new : ResidueClusterRecord) (rows : List ResidueClusterRecord)
    → IsKeyed rows
    → IsKeyed (save_row new rows)
unfolding save_row
save_row-IsKeyed new [] k = tt
save_row-IsKeyed new (r ∷ rows) (a, k) = elim (Bool-cases (str_eq r.id new.id)) [
  | inl e ↦
      let same : r.id ≡ new.id = ground (arith, eq_iff r.id new.id) in
      rw e (
        subst (λ i. All (λ s. str_eq i s.id ≡ false) (save_row new rows)) same
            (save_row-HasOtherId r new rows a),
        save_row-IsKeyed new rows k,
      )
  | inr e ↦ rw e (save_row-HasOtherId r new rows a, save_row-IsKeyed new rows k)
]

pub save_row-StaysPromoted :
    (new r : ResidueClusterRecord) (rows : List ResidueClusterRecord)
    → new.id ≡ r.id
    → (is_promoted r.state ≡ true → is_promoted new.state ≡ true)
    → IsOnly rows r
    → StaysPromoted rows (save_row new rows)
unfolding save_row
save_row-StaysPromoted new r [] i f o = tt
save_row-StaysPromoted new r (s ∷ rows) i f (h, o) = elim (Bool-cases (str_eq s.id new.id)) [
  | inl e ↦
      let same = h (subst (λ x. str_eq s.id x ≡ true) i e) in
      rw e (
        (ap (λ x. x.id) same ∙ sym i, λ p. f (subst (λ x. is_promoted x.state ≡ true) same p)),
        save_row-StaysPromoted new r rows i f o,
      )
  | inr e ↦ rw e ((refl, λ p. p), save_row-StaysPromoted new r rows i f o)
]
