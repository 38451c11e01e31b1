-- ===== src/Drift/Keys.antt =====
-- Identities of findings and the dictionaries that are keyed by them.
use sih.Prelude.{
  ℕ, ◌≡◌, refl, sym, ap, ◌∙◌, subst, Bool, true, false, ◌||◌, Option, none, some, String, List, [],
  ◌∷◌, any, All, arith, Bool-cases, inl, inr,
}
use sih.Prelude.Sort.{Pairwise}
use sih.Prelude.Text.{str_eq, eq_iff, eq_refl}
use sih.Model.{Finding}
use sih.Drift.{
  Identity, num_eq, text_eq, same_identity, finding_identity, FindingMap, put, index_from, index,
  has_key,
}

num_eq→eq : (a b : Option ℕ) → num_eq a b ≡ true → a ≡ b
unfolding num_eq
num_eq→eq none none e = refl
num_eq→eq none (some n) e = ground arith
num_eq→eq (some m) none e = ground arith
num_eq→eq (some m) (some n) e = ap some (ground arith)

num_eq_refl : (a : Option ℕ) → num_eq a a ≡ true
unfolding num_eq
num_eq_refl none = refl
num_eq_refl (some n) = ground arith

text_eq→eq : (a b : Option String) → text_eq a b ≡ true → a ≡ b
unfolding text_eq
text_eq→eq none none e = refl
text_eq→eq none (some n) e = ground arith
text_eq→eq (some m) none e = ground arith
text_eq→eq (some m) (some n) e = ap some (ground (arith, eq_iff m n))

text_eq_refl : (a : Option String) → text_eq a a ≡ true
unfolding text_eq
text_eq_refl none = refl
text_eq_refl (some n) = eq_refl n

pub same_identity_refl : (a : Identity) → same_identity a a ≡ true
unfolding same_identity
same_identity_refl a = ground (
  arith,
  eq_refl a.path,
  num_eq_refl a.line,
  eq_refl a.display_name,
  text_eq_refl a.family,
  eq_refl a.function,
  eq_refl a.symbol,
  num_eq_refl a.key_size,
  text_eq_refl a.curve,
)

pub same_identity→eq : (a b : Identity) → same_identity a b ≡ true → a ≡ b
unfolding same_identity
same_identity→eq a b e =
    let h₁ : str_eq a.path b.path ≡ true = ground arith in
    let h₂ : num_eq a.line b.line ≡ true = ground arith in
    let h₃ : str_eq a.display_name b.display_name ≡ true = ground arith in
    let h₄ : text_eq a.family b.family ≡ true = ground arith in
    let h₅ : str_eq a.function b.function ≡ true = ground arith in
    let h₆ : str_eq a.symbol b.symbol ≡ true = ground arith in
    let h₇ : num_eq a.key_size b.key_size ≡ true = ground arith in
    let h₈ : text_eq a.curve b.curve ≡ true = ground arith in
    rw
      (
        (eq_iff a.path b.path).0 h₁,
        num_eq→eq a.line b.line h₂,
        (eq_iff a.display_name b.display_name).0 h₃,
        text_eq→eq a.family b.family h₄,
        (eq_iff a.function b.function).0 h₅,
        (eq_iff a.symbol b.symbol).0 h₆,
        num_eq→eq a.key_size b.key_size h₇,
        text_eq→eq a.curve b.curve h₈,
      )
      refl

pub same_identity_sym : (a b : Identity) → same_identity a b ≡ same_identity b a
same_identity_sym a b = elim (Bool-cases (same_identity a b)) [
  | inl e ↦ rw (same_identity→eq a b e) refl
  | inr e ↦ elim (Bool-cases (same_identity b a)) [
    | inl f ↦ rw (same_identity→eq b a f) refl
    | inr f ↦ e ∙ sym f
  ]
]

-- A finding of the list has the identity.
abbrev pub mentions : Identity → List Finding → Bool
mentions k fs = any (λ f. same_identity k (finding_identity f)) fs

has_key-put :
    (k j : Identity) (f : Finding) (m : FindingMap)
    → has_key k (put j f m) ≡ (same_identity k j || has_key k m)
unfolding put has_key
has_key-put k j f [] = refl
has_key-put k j f (e ∷ m) = elim (Bool-cases (same_identity j e.0)) [
  | inl s ↦ rw s (rw (same_identity→eq j e.0 s) (ground arith))
  | inr s ↦ rw s (ground (arith, has_key-put k j f m))
]

has_key-index_from :
    (k : Identity) (m : FindingMap) (fs : List Finding)
    → has_key k (index_from m fs) ≡ (has_key k m || mentions k fs)
unfolding index_from
has_key-index_from k m [] = ground arith
has_key-index_from k m (f ∷ fs) =
    has_key-index_from k (put (finding_identity f) f m) fs
    ∙ ground (arith, has_key-put k (finding_identity f) f m)

-- The keys of the index are the identities of the findings.
pub has_key-index : (k : Identity) (fs : List Finding) → has_key k (index fs) ≡ mentions k fs
unfolding index has_key
has_key-index k fs = has_key-index_from k [] fs

-- Every entry is kept under the identity of its finding, and no two have one key.
abbrev pub IsFiled : Identity × Finding → Type 0
IsFiled e = e.0 ≡ finding_identity e.1

abbrev pub HasOtherKey : Identity × Finding → Identity × Finding → Type 0
HasOtherKey d e = same_identity d.0 e.0 ≡ false

put-All :
    (P : Identity × Finding → Type 0) (k : Identity) (f : Finding) (m : FindingMap)
    → P (k, f)
    → ((i : Identity) → same_identity k i ≡ true → P (i, f))
    → All P m
    → All P (put k f m)
unfolding put
put-All P k f [] new old a = (new, tt)
put-All P k f (e ∷ m) new old (h, a) = elim (Bool-cases (same_identity k e.0)) [
  | inl s ↦ rw s (old e.0 s, a)
  | inr s ↦ rw s (h, put-All P k f m new old a)
]

put-IsFiled :
    (f : Finding) (m : FindingMap) → All IsFiled m → All IsFiled (put (finding_identity f) f m)
put-IsFiled f m a =
    put-All IsFiled (finding_identity f) f m refl
      (λ i s. sym (same_identity→eq (finding_identity f) i s)) a

put-Pairwise :
    (k : Identity) (f : Finding) (m : FindingMap)
    → Pairwise HasOtherKey m
    → Pairwise HasOtherKey (put k f m)
unfolding put
put-Pairwise k f [] p = (tt, tt)
put-Pairwise k f (e ∷ m) (a, p) = elim (Bool-cases (same_identity k e.0)) [
  | inl s ↦ rw s (a, p)
  | inr s ↦
      let other = same_identity_sym e.0 k ∙ s in
      rw s (
        put-All (HasOtherKey e) k f m other
            (λ i t. subst (λ j. same_identity e.0 j ≡ false) (same_identity→eq k i t) other) a,
        put-Pairwise k f m p,
      )
]

index_from-keeps :
    (m : FindingMap) (fs : List Finding)
    → All IsFiled m
    → Pairwise HasOtherKey m
    → All IsFiled (index_from m fs) × Pairwise HasOtherKey (index_from m fs)
unfolding index_from
index_from-keeps m [] a p = (a, p)
index_from-keeps m (f ∷ fs) a p =
    index_from-keeps (put (finding_identity f) f m) fs (put-IsFiled f m a)
      (put-Pairwise (finding_identity f) f m p)

pub index-IsFiled : (fs : List Finding) → All IsFiled (index fs)
unfolding index
index-IsFiled fs = (index_from-keeps [] fs tt tt).0

pub index-Pairwise : (fs : List Finding) → Pairwise HasOtherKey (index fs)
unfolding index
index-Pairwise fs = (index_from-keeps [] fs tt tt).1
