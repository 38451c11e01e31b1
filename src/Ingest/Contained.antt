-- ===== src/Ingest/Contained.antt =====
-- What the textual check of a resolved path says of its components (`_extract_zip`, `_extract_tar`).
use sih.Prelude.{
  ◌≡◌, ◌≢◌, refl, sym, ap, ◌∙◌, true, ◌||◌, List, [], ◌∷◌, ◌++◌, arith, All, Bool-cases, inl, inr,
  append-nil, append_assoc, All-append,
}
use sih.Prelude.Text.{codes}
use sih.Prelude.Bytes.{Bytes, bytes_eq, bytes_eq→eq, starts_with}
use sih.Prelude.Split.{
  split_on, join_with, Lacks, split_on-All-Lacks, split_on-append, split_on-join_with,
}
use sih.Ingest.{is_up, parent, enter, enter_all, resolve, path_text, is_within}

head_inj {ℓ} : {A : Type ℓ} {x y : A} {xs ys : List A} → x ∷ xs ≡ y ∷ ys → x ≡ y
head_inj e = cc

tail_inj {ℓ} : {A : Type ℓ} {x y : A} {xs ys : List A} → x ∷ xs ≡ y ∷ ys → xs ≡ ys
tail_inj e = cc

pub parent-All : (dir : List Bytes) → All (Lacks b'/') dir → All (Lacks b'/') (parent dir)
unfolding parent
parent-All [] a = tt
parent-All (p ∷ []) a = tt
parent-All (p ∷ q ∷ ps) (l, a) = (l, parent-All (q ∷ ps) a)

enter-All :
    (dir : List Bytes) (p : Bytes)
    → All (Lacks b'/') dir
    → Lacks b'/' p
    → All (Lacks b'/') (enter dir p)
unfolding enter
enter-All dir p a l = elim (Bool-cases (bytes_eq p [] || bytes_eq p (codes "."))) [
  | inl e ↦ rw e a
  | inr e ↦ elim (Bool-cases (is_up p)) [
    | inl u ↦ rw (e, u) (parent-All dir a)
    | inr u ↦ rw (e, u) (All-append (Lacks b'/') dir (p ∷ []) a (l, tt))
  ]
]

enter_all-All :
    (dir parts : List Bytes)
    → All (Lacks b'/') dir
    → All (Lacks b'/') parts
    → All (Lacks b'/') (enter_all dir parts)
unfolding enter_all
enter_all-All dir [] a b = a
enter_all-All dir (p ∷ parts) a (l, b) = enter_all-All (enter dir p) parts (enter-All dir p a l) b

pub resolve-All :
    (dir : List Bytes) (name : Bytes) → All (Lacks b'/') dir → All (Lacks b'/') (resolve dir name)
unfolding resolve
resolve-All dir name a = elim (Bool-cases (starts_with (codes "/") name)) [
  | inl e ↦ rw e (enter_all-All [] (split_on b'/' name) tt (split_on-All-Lacks b'/' name))
  | inr e ↦ rw e (enter_all-All dir (split_on b'/' name) a (split_on-All-Lacks b'/' name))
]

starts_with-true : (a s : Bytes) → starts_with a s ≡ true → (rest : Bytes) × (s ≡ a ++ rest)
unfolding starts_with
starts_with-true [] s h = (s, refl)
starts_with-true (c ∷ a) [] h = ground arith
starts_with-true (c ∷ a) (d ∷ s) h =
    let same : c ≡ d = ground (arith, h) in
    let (rest, e) = starts_with-true a s (ground (arith, h)) in
    let back = sym same in (rest, λ i. back i ∷ e i)

split_on-join_with-append :
    (r : Bytes) (rs : List Bytes) (s : Bytes)
    → All (Lacks b'/') (r ∷ rs)
    → split_on b'/' (join_with b'/' (r ∷ rs) ++ b'/' ∷ s) ≡ r ∷ rs ++ split_on b'/' s
unfolding join_with
split_on-join_with-append r [] s (l, a) = split_on-append b'/' r s l
split_on-join_with-append r (q ∷ rs) s (l, a) =
    let tail = join_with b'/' (q ∷ rs) in
    ap (split_on b'/') (append_assoc r (b'/' ∷ tail) (b'/' ∷ s))
    ∙ split_on-append b'/' r (tail ++ b'/' ∷ s) l
    ∙ ap (r ∷◌) (split_on-join_with-append q rs s a)

-- A joined path that splits into components of which the first is not empty has these components.
components :
    (r : Bytes) (rs dest : List Bytes)
    → r ≢ []
    → All (Lacks b'/') dest
    → split_on b'/' (join_with b'/' dest) ≡ r ∷ rs
    → dest ≡ r ∷ rs
unfolding join_with split_on
components r rs [] n a e = absurd (n (sym (head_inj e)))
components r rs (d ∷ dest) n a e = sym (split_on-join_with b'/' d dest a) ∙ e

pub is_within-below :
    (r : Bytes) (rs dest : List Bytes)
    → r ≢ []
    → All (Lacks b'/') (r ∷ rs)
    → All (Lacks b'/') dest
    → is_within (r ∷ rs) dest ≡ true
    → (below : List Bytes) × (dest ≡ r ∷ rs ++ below)
unfolding is_within path_text
is_within-below r rs dest n a b h =
    elim (Bool-cases (bytes_eq (path_text dest) (path_text (r ∷ rs)))) [
      | inl e ↦
          let same = tail_inj (bytes_eq→eq (path_text dest) (path_text (r ∷ rs)) e) in
          (
            [],
            components r rs dest n b (ap (split_on b'/') same ∙ split_on-join_with b'/' r rs a)
                ∙ sym (append-nil (r ∷ rs)),
          )
      | inr e ↦
          let (rest, t) =
            starts_with-true (path_text (r ∷ rs) ++ b'/' ∷ []) (path_text dest)
              (ground (arith, h, e)) in
          let same = tail_inj t ∙ append_assoc (join_with b'/' (r ∷ rs)) (b'/' ∷ []) rest in
          (
            split_on b'/' rest,
            components r (rs ++ split_on b'/' rest) dest n b
                (ap (split_on b'/') same ∙ split_on-join_with-append r rs rest a),
          )
    ]
