-- ===== src/Ingest/Resolved.antt =====
-- Where a name that is not suspicious leads (`_is_suspicious_path` and the check behind it).
use sih.Prelude.{
  ℕ, ◌≡◌, refl, sym, ap, ◌∙◌, subst, Bool, true, false, not, ◌||◌, List, [], ◌∷◌, ◌++◌, any, keep,
  arith, ◌==◌, Bool-cases, inl, inr, append-nil, append_assoc,
}
use sih.Prelude.Text.{codes}
use sih.Prelude.Bytes.{Bytes, bytes_eq, bytes_eq→eq, bytes_eq_refl, starts_with}
use sih.Prelude.Split.{split_on, join_with, first_with}
use sih.Ingest.{
  with_slashes, is_up, is_suspicious_path, enter, enter_all, resolve, path_text, is_within,
}

has_backslash : Bytes → Bool
has_backslash = any (λ c. c == b'\\')

-- `..` among the components `ps` of a name is among the components `qs` of the name with slashes.
Sees : List Bytes → List Bytes → Type 0
Sees [] qs = ⊥
Sees (p ∷ ps) [] = ⊥
Sees (p ∷ ps) (q ∷ qs) =
    (any is_up ps ≡ true → any is_up qs ≡ true) × (has_backslash p ≡ false → p ≡ q)

up_has_none : (p : Bytes) → is_up p ≡ true → has_backslash p ≡ false
unfolding has_backslash
up_has_none p u = ap has_backslash (sym (bytes_eq→eq (codes "..") p u))

Sees-any : (ps qs : List Bytes) → Sees ps qs → any is_up ps ≡ true → any is_up qs ≡ true
unfolding Sees
Sees-any [] qs s h = absurd s
Sees-any (p ∷ ps) [] s h = absurd s
Sees-any (p ∷ ps) (q ∷ qs) (later, first) h = elim (Bool-cases (is_up p)) [
  | inl u ↦ let v : is_up q ≡ true = rw (sym (first (up_has_none p u))) u in rw v refl
  | inr u ↦
      let v = later (rw u at h) in
      elim (Bool-cases (is_up q)) [ inl w ↦ rw w refl | inr w ↦ rw w v ]
]

Sees-slash : (ps qs : List Bytes) → Sees ps qs → Sees ([] ∷ ps) ([] ∷ qs)
unfolding Sees
Sees-slash ps qs s = (Sees-any ps qs s, λ h. refl)

Sees-backslash : (ps qs : List Bytes) → Sees ps qs → Sees (first_with b'\\' ps) ([] ∷ qs)
unfolding Sees has_backslash
Sees-backslash [] qs s = absurd s
Sees-backslash (p ∷ ps) [] s = absurd s
Sees-backslash (p ∷ ps) (q ∷ qs) (later, first) = (
  (λ h. elim (Bool-cases (is_up q)) [ inl w ↦ rw w refl | inr w ↦ rw w (later h) ]),
  λ h. absurd (ground (arith, h)),
)

Sees-other :
    (c : ℕ) (ps qs : List Bytes)
    → (c == b'\\') ≡ false
    → Sees ps qs
    → Sees (first_with c ps) (first_with c qs)
unfolding Sees has_backslash
Sees-other c [] qs n s = absurd s
Sees-other c (p ∷ ps) [] n s = absurd s
Sees-other c (p ∷ ps) (q ∷ qs) n (later, first) = (later, λ h. ap (c ∷◌) (first (rw n at h)))

Sees-split_on : (s : Bytes) → Sees (split_on b'/' s) (split_on b'/' (with_slashes s))
unfolding split_on with_slashes Sees
Sees-split_on [] = ((λ h. h), λ h. refl)
Sees-split_on (c ∷ s) = elim (Bool-cases (c == b'/')) [
  | inl e ↦
      let n : (c == b'\\') ≡ false = ground (arith, e) in
      rw (n, e) (Sees-slash (split_on b'/' s) (split_on b'/' (with_slashes s)) (Sees-split_on s))
  | inr e ↦ elim (Bool-cases (c == b'\\')) [
    | inl b ↦
        let c_is : c ≡ b'\\' = ground (arith, b) in
        rw c_is
          (Sees-backslash (split_on b'/' s) (split_on b'/' (with_slashes s)) (Sees-split_on s))
    | inr b ↦
        rw (b, e)
          (Sees-other c (split_on b'/' s) (split_on b'/' (with_slashes s)) b (Sees-split_on s))
  ]
]

any_later :
    (p : Bytes) (ps : List Bytes)
    → any is_up (p ∷ ps) ≡ false
    → (is_up p ≡ false) × (any is_up ps ≡ false)
any_later p ps h = (ground (arith, h), ground (arith, h))

-- A name that is not suspicious has no `..` and no slash in front.
plain :
    (name : Bytes)
    → is_suspicious_path name ≡ false
    → (any is_up (split_on b'/' name) ≡ false) × (starts_with (codes "/") name ≡ false)
unfolding is_suspicious_path starts_with with_slashes
plain name h = (no_up, relative name no_slash)
  where
    no_slash : starts_with (codes "/") (with_slashes name) ≡ false
    no_slash = ground (arith, h)

    no_up_later : any is_up (split_on b'/' (with_slashes name)) ≡ false
    no_up_later = ground (arith, h)

    no_up : any is_up (split_on b'/' name) ≡ false
    no_up = elim (Bool-cases (any is_up (split_on b'/' name))) [
      | inr u ↦ u
      | inl u ↦ absurd (
          cc (
            no_up_later,
            Sees-any (split_on b'/' name) (split_on b'/' (with_slashes name)) (Sees-split_on name)
                u,
          ))
    ]

    relative :
        (s : Bytes)
        → starts_with (codes "/") (with_slashes s) ≡ false
        → starts_with (codes "/") s ≡ false
    relative [] g = refl
    relative (c ∷ s) g = elim (Bool-cases (47 == c)) [
      | inr e ↦ rw e refl
      | inl e ↦ absurd (ground (arith, e, g))
    ]

is_name : Bytes → Bool
is_name part = not (bytes_eq part [] || bytes_eq part (codes "."))

enter_all-below :
    (dir parts : List Bytes)
    → any is_up parts ≡ false
    → enter_all dir parts ≡ dir ++ keep is_name parts
unfolding enter_all enter is_name
enter_all-below dir [] h = sym (append-nil dir)
enter_all-below dir (p ∷ parts) h = elim (Bool-cases (bytes_eq p [] || bytes_eq p (codes "."))) [
  | inl e ↦ rw e (enter_all-below dir parts (any_later p parts h).1)
  | inr e ↦
      rw (e, (any_later p parts h).0)
        (enter_all-below (dir ++ p ∷ []) parts (any_later p parts h).1
          ∙ append_assoc dir (p ∷ []) (keep is_name parts))
]

join_with-append :
    (r : Bytes) (rs : List Bytes) (e : Bytes) (es : List Bytes)
    → join_with b'/' (r ∷ rs ++ e ∷ es) ≡ join_with b'/' (r ∷ rs) ++ b'/' ∷ join_with b'/' (e ∷ es)
unfolding join_with
join_with-append r [] e es = refl
join_with-append r (q ∷ rs) e es =
    rw (join_with-append q rs e es)
      (sym (append_assoc r (b'/' ∷ join_with b'/' (q ∷ rs)) (b'/' ∷ join_with b'/' (e ∷ es))))

starts_with-append : (a b : Bytes) → starts_with a (a ++ b) ≡ true
unfolding starts_with
starts_with-append [] b = refl
starts_with-append (c ∷ a) b = ground (arith, starts_with-append a b)

pub is_within-append :
    (r : Bytes) (rs below : List Bytes) → is_within (r ∷ rs) (r ∷ rs ++ below) ≡ true
unfolding is_within path_text
is_within-append r rs [] =
    let e : bytes_eq (path_text (r ∷ rs ++ [])) (path_text (r ∷ rs)) ≡ true =
      rw (append-nil rs) (bytes_eq_refl (path_text (r ∷ rs))) in
    rw e refl
is_within-append r rs (b ∷ bs) =
    let root = path_text (r ∷ rs) in
    let e : path_text (r ∷ rs ++ b ∷ bs) ≡ (root ++ b'/' ∷ []) ++ join_with b'/' (b ∷ bs) =
      ap (b'/' ∷◌) (join_with-append r rs b bs)
      ∙ sym (append_assoc root (b'/' ∷ []) (join_with b'/' (b ∷ bs))) in
    let inside : starts_with (root ++ b'/' ∷ []) (path_text (r ∷ rs ++ b ∷ bs)) ≡ true =
      subst (λ t. starts_with (root ++ b'/' ∷ []) t ≡ true) (sym e)
        (starts_with-append (root ++ b'/' ∷ []) (join_with b'/' (b ∷ bs))) in
    elim (Bool-cases (bytes_eq (path_text (r ∷ rs ++ b ∷ bs)) root)) [
      | inl k ↦ rw k refl
      | inr k ↦ rw (k, inside) refl
    ]

-- A name that is not suspicious, be it with slashes or backslashes, leads to the directory or to
-- a path below it, component by component; under a directory that is not the root of the file
-- system, the check of the resolved path lets it pass.
pub is_within-resolve :
    (r name : Bytes) (rs : List Bytes)
    → is_suspicious_path name ≡ false
    → ((below : List Bytes) × (resolve (r ∷ rs) name ≡ r ∷ rs ++ below))
      × (is_within (r ∷ rs) (resolve (r ∷ rs) name) ≡ true)
unfolding resolve
is_within-resolve r name rs h =
    let (no_up, relative) = plain name h in
    let below = keep is_name (split_on b'/' name) in
    let e : resolve (r ∷ rs) name ≡ r ∷ rs ++ below =
      rw relative (enter_all-below (r ∷ rs) (split_on b'/' name) no_up) in
    ((below, e), subst (λ d. is_within (r ∷ rs) d ≡ true) (sym e) (is_within-append r rs below))
