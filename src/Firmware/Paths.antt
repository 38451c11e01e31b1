-- ===== src/Firmware/Paths.antt =====
-- The names that the extraction gives its files (`sanitize_archive_path`).
use sih.Prelude.{
  ◌≡◌, ◌≢◌, refl, sym, subst, Bool, true, false, not, ◌&&◌, some, List, [], ◌∷◌, ◌++◌, keep, any,
  arith, All, Bool-cases, inl, inr, if◌then◌else◌, some_inj, none-some,
}
use sih.Prelude.Text.{codes}
use sih.Prelude.Bytes.{Bytes, bytes_eq, eq→bytes_eq, starts_with}
use sih.Prelude.Keep.{All-keep, keep_passes, All-map}
use sih.Prelude.Split.{Lacks, split_on, join_with, split_on-All-Lacks, split_on-join_with}
use sih.Firmware.{sanitize_archive_path, path_parts, path_names, path_root, is_kept_part, joined}

abbrev NotUp : Bytes → Type 0
NotUp p = p ≢ codes ".."

abbrev NotEmpty : Bytes → Type 0
NotEmpty p = p ≢ []

-- The root is exactly two slashes.
abbrev pub is_double : Bytes → Bool
is_double raw_path = starts_with (codes "//") raw_path && not (starts_with (codes "///") raw_path)

any_up : (ps : List Bytes) → any (bytes_eq (codes "..")) ps ≡ false → All NotUp ps
any_up [] h = tt
any_up (p ∷ ps) h =
    ((λ e. cc (head, eq→bytes_eq (codes "..") p (sym e))), any_up ps (ground (arith, h)))
  where
    head : bytes_eq (codes "..") p ≡ false
    head = ground (arith, h)

kept-NotEmpty : (p : Bytes) → is_kept_part p ≡ true → NotEmpty p
kept-NotEmpty p k e = ground (arith, k, eq→bytes_eq p [] e)

-- What `join_with` makes of components with no slash.
starts_plain :
    (part : Bytes) (parts : List Bytes)
    → NotEmpty part
    → Lacks b'/' part
    → starts_with (codes "/") (join_with b'/' (part ∷ parts)) ≡ false
unfolding starts_with join_with
starts_plain [] parts n h = absurd (n refl)
starts_plain (c ∷ part) [] n (h, a) = ground (arith, h)
starts_plain (c ∷ part) (q ∷ parts) n (h, a) = ground (arith, h)

abbrev IsName : Bytes → Type 0
IsName p = NotUp p × NotEmpty p × Lacks b'/' p

abbrev IsSafe : Bool → Bytes → Type 0
IsSafe double clean = All NotUp (split_on b'/' clean) × (starts_with (codes "/") clean ≡ double)

join_with-IsSafe :
    (part : Bytes) (parts : List Bytes)
    → All IsName (part ∷ parts)
    → IsSafe false (join_with b'/' (part ∷ parts))
join_with-IsSafe part parts ((u, n, l), a) = (
  let lacks = All-map IsName (Lacks b'/') (λ p h. h.2) (part ∷ parts) ((u, n, l), a) in
      rw (split_on-join_with b'/' part parts lacks)
        (All-map IsName NotUp (λ p h. h.0) (part ∷ parts) ((u, n, l), a)),
  starts_plain part parts n l,
)

-- A double slash in front of the names.
join_with-double-IsSafe :
    (ps : List Bytes) → All IsName ps → IsSafe true (join_with b'/' (codes "//" ∷ ps))
unfolding join_with split_on starts_with
join_with-double-IsSafe [] a = (((λ e. cc e), ((λ e. cc e), ((λ e. cc e), tt))), refl)
join_with-double-IsSafe (p ∷ ps) a =
    (((λ e. cc e), ((λ e. cc e), ((λ e. cc e), (join_with-IsSafe p ps a).0))), refl)

All-right {ℓ κ} : {A : Type ℓ} (P : A → Type κ) (xs ys : List A) → All P (xs ++ ys) → All P ys
All-right P [] ys a = a
All-right P (x ∷ xs) ys (h, a) = All-right P xs ys a

names_from :
    (ps : List Bytes)
    → All NotUp ps
    → All (λ p. is_kept_part p ≡ true) ps
    → All (Lacks b'/') ps
    → All IsName ps
names_from [] u k l = tt
names_from (p ∷ ps) (u, us) (k, ks) (l, ls) = ((u, kept-NotEmpty p k, l), names_from ps us ks ls)

kept_names :
    (raw_path : Bytes)
    → any (bytes_eq (codes "..")) (path_parts raw_path) ≡ false
    → All IsName (keep is_kept_part (path_names raw_path))
unfolding path_parts path_names
kept_names raw_path h =
    let names = path_names raw_path in
    names_from (keep is_kept_part names)
      (All-keep NotUp is_kept_part names
        (All-right NotUp (path_root raw_path) names (any_up (path_root raw_path ++ names) h)))
      (keep_passes is_kept_part names)
      (All-keep (Lacks b'/') is_kept_part names
        (All-keep (Lacks b'/') _ (split_on b'/' raw_path) (split_on-All-Lacks b'/' raw_path)))

-- The root that is kept: two slashes, or none.
kept_root :
    (raw_path : Bytes)
    → keep is_kept_part (path_parts raw_path)
      ≡ (if is_double raw_path then codes "//" ∷ [] else [])
        ++ keep is_kept_part (path_names raw_path)
unfolding path_parts bytes_eq
kept_root raw_path = elim (Bool-cases (is_double raw_path)) [
  | inl e ↦ rw e refl
  | inr e ↦ elim (Bool-cases (starts_with (codes "/") raw_path)) [
    | inl f ↦ rw (e, f) refl
    | inr f ↦ rw (e, f) refl
  ]
]

accepted :
    (double : Bool) (ps : List Bytes) (clean : Bytes)
    → All IsName ps
    → joined ((if double then codes "//" ∷ [] else []) ++ ps) ≡ some clean
    → IsSafe double clean
accepted true ps clean a e = subst (IsSafe true) (some_inj e) (join_with-double-IsSafe ps a)
accepted false [] clean a e = absurd (none-some e)
accepted false (p ∷ ps) clean a e = subst (IsSafe false) (some_inj e) (join_with-IsSafe p ps a)

-- A name that the extraction accepts has no ".." among its components, and it starts with a slash
-- exactly when the raw name starts with two slashes and not with three.
pub sanitize_archive_path_lem :
    (raw_path clean : Bytes)
    → sanitize_archive_path raw_path ≡ some clean
    → All (λ p. p ≢ codes "..") (split_on b'/' clean)
      × (starts_with (codes "/") clean ≡ is_double raw_path)
unfolding sanitize_archive_path
sanitize_archive_path_lem raw_path clean h =
    elim (Bool-cases (any (bytes_eq (codes "..")) (path_parts raw_path))) [
      | inl up ↦ absurd (none-some (rw up at h))
      | inr ok ↦
          accepted (is_double raw_path) (keep is_kept_part (path_names raw_path)) clean
            (kept_names raw_path ok) (rw (ok, kept_root raw_path) at h)
    ]
