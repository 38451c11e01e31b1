-- ===== src/Ingest/Extracted.antt =====
-- Which archives are extracted (`_extract_zip` and `_extract_tar`).
use sih.Prelude.{
  ℕ, ◌≢◌, ◌++◌, subst, sym, ◌*◌, ◌≤◌, ◌<◌, ◌≡◌, ◌⊎◌, refl, true, false, none, some, List, ◌∷◌,
  length, sum_by, ltb, arith, All, Bool-cases, Option-cases, inl, inr, none-some, [],
}
use sih.Prelude.Bytes.{Bytes}
use sih.Ingest.{
  IngestError, ok, raised, is_suspicious_path, resolve, parent, is_within, check_name, check_link,
  ZipInfo, TarInfo, is_symlink, is_bomb, check_zip, check_tar, decompression_bomb, extract_zip,
  extract_tar, max_file_count, max_uncompressed_bytes, max_compression_ratio,
}
use sih.Ingest.Resolved.{is_within-resolve, is_within-append}
use sih.Ingest.Contained.{parent-All, resolve-All, is_within-below}
use sih.Prelude.Split.{Lacks}
use sih.Ingest.Inspected.{inspect_decides}

-- What is expanded is not above 100 times what is compressed, unless that is empty.
abbrev pub IsBelowRatio : ℕ → ℕ → Type 0
IsBelowRatio expanded compressed = 0 < compressed → expanded ≤ max_compression_ratio * compressed

-- The target of a link of this name is not suspicious and, resolved from the directory of the
-- link, leads to the root or below it.
abbrev pub IsSafeLink : List Bytes → Bytes → Bytes → Type 0
IsSafeLink root name target =
    (is_suspicious_path target ≡ false)
    × ((below : List Bytes) × (resolve (parent (resolve root name)) target ≡ root ++ below))

abbrev pub IsSafeInfo : List Bytes → ZipInfo → Type 0
IsSafeInfo root info =
    IsBelowRatio info.file_size info.compress_size
    × (is_suspicious_path info.filename ≡ false)
    × (is_symlink info ≡ true
        → (target : Bytes) × (info.content ≡ some target) × IsSafeLink root info.filename target)

abbrev pub IsSafeMember : List Bytes → TarInfo → Type 0
IsSafeMember root member =
    (is_suspicious_path member.name ≡ false)
    × ((target : Bytes) → member.linkname ≡ some target → IsSafeLink root member.name target)

abbrev pub IsSafeZip : List Bytes → List ZipInfo → Type 0
IsSafeZip root infolist =
    (length infolist ≤ max_file_count)
    × (sum_by (λ info. info.file_size) infolist ≤ max_uncompressed_bytes)
    × All (IsSafeInfo root) infolist

abbrev pub IsSafeTar : List Bytes → ℕ → List TarInfo → Type 0
IsSafeTar root compressed_size members =
    (length members ≤ max_file_count)
    × (sum_by (λ member. member.size) members ≤ max_uncompressed_bytes)
    × IsBelowRatio (sum_by (λ member. member.size) members) compressed_size
    × All (IsSafeMember root) members

is_bomb-IsBelowRatio : (m n : ℕ) → is_bomb m n ≡ false → IsBelowRatio m n
unfolding is_bomb
is_bomb-IsBelowRatio m n h p = ground (arith, h, p)

IsBelowRatio-is_bomb : (m n : ℕ) → IsBelowRatio m n → is_bomb m n ≡ false
unfolding is_bomb
IsBelowRatio-is_bomb m n h = elim (Bool-cases (ltb 0 n)) [
  | inr k ↦ rw k refl
  | inl k ↦
      let le = h (ground (arith, k)) in
      let small : ltb (max_compression_ratio * n) m ≡ false = ground (arith, le) in
      rw (k, small) refl
]

check_name-none :
    (root : List Bytes) (name : Bytes)
    → check_name root name ≡ none
    → is_suspicious_path name ≡ false
unfolding check_name
check_name-none root name h = elim (Bool-cases (is_suspicious_path name)) [
  | inl k ↦ absurd (none-some (sym (rw k at h)))
  | inr k ↦ k
]

check_name_passes :
    (r name : Bytes) (rs : List Bytes)
    → is_suspicious_path name ≡ false
    → check_name (r ∷ rs) name ≡ none
unfolding check_name
check_name_passes r name rs h = rw (h, (is_within-resolve r name rs h).1) refl

module _ (r : Bytes) (rs : List Bytes) (named : r ≢ []) (plain : All (Lacks b'/') (r ∷ rs)) where
  check_link-none :
      (name target : Bytes)
      → check_link (r ∷ rs) name target ≡ none
      → IsSafeLink (r ∷ rs) name target
  unfolding check_link
  check_link-none name target h = elim (Bool-cases (is_suspicious_path target)) [
    | inl k ↦ absurd (none-some (sym (rw k at h)))
    | inr k ↦
        let from = parent (resolve (r ∷ rs) name) in
        elim (Bool-cases (is_within (r ∷ rs) (resolve from target))) [
          | inl i ↦
              let slashless =
                resolve-All from target
                  (parent-All (resolve (r ∷ rs) name) (resolve-All (r ∷ rs) name plain)) in
              (k, is_within-below r rs (resolve from target) named plain slashless i)
          | inr i ↦ absurd (none-some (sym (rw (k, i) at h)))
        ]
  ]

  check_link_passes :
      (name target : Bytes)
      → IsSafeLink (r ∷ rs) name target
      → check_link (r ∷ rs) name target ≡ none
  unfolding check_link
  check_link_passes name target (k, (below, e)) =
      let i = subst (λ d. is_within (r ∷ rs) d ≡ true) (sym e) (is_within-append r rs below) in
      rw (k, i) refl

  check_zip_passed :
      (total : ℕ) (info : ZipInfo)
      → check_zip (r ∷ rs) total info ≡ none
      → (0 ≤ total) × IsSafeInfo (r ∷ rs) info
  unfolding check_zip
  check_zip_passed total info h = elim (Bool-cases (is_bomb info.file_size info.compress_size)) [
    | inl b ↦ absurd (none-some (sym (rw b at h)))
    | inr b ↦ elim (Option-cases (check_name (r ∷ rs) info.filename)) [
      | inr (err, n) ↦ absurd (none-some (sym (rw (b, n) at h)))
      | inl n ↦ (
        omega arith,
        (
          is_bomb-IsBelowRatio info.file_size info.compress_size b,
          check_name-none (r ∷ rs) info.filename n,
          λ s. elim (Option-cases info.content) [
            | inl c ↦ absurd (none-some (sym (rw (b, n, s, c) at h)))
            | inr (target, c) ↦
                (target, c, check_link-none info.filename target (rw (b, n, s, c) at h))
          ],
        ),
      )
    ]
  ]

  check_zip_passes :
      (total : ℕ) (info : ZipInfo)
      → 0 ≤ total
      → IsSafeInfo (r ∷ rs) info
      → check_zip (r ∷ rs) total info ≡ none
  unfolding check_zip
  check_zip_passes total info w (ratio, name, link) =
      let b = IsBelowRatio-is_bomb info.file_size info.compress_size ratio in
      let n = check_name_passes r info.filename rs name in
      elim (Bool-cases (is_symlink info)) [
        | inr s ↦ rw (b, n, s) refl
        | inl s ↦
            let (target, c, safe) = link s in
            rw (b, n, s, c) (check_link_passes info.filename target safe)
      ]

  check_tar_passed :
      (compressed total : ℕ) (member : TarInfo)
      → check_tar (r ∷ rs) compressed total member ≡ none
      → IsBelowRatio total compressed × IsSafeMember (r ∷ rs) member
  unfolding check_tar
  check_tar_passed compressed total member h = elim (Bool-cases (is_bomb total compressed)) [
    | inl b ↦ absurd (none-some (sym (rw b at h)))
    | inr b ↦ elim (Option-cases (check_name (r ∷ rs) member.name)) [
      | inr (err, n) ↦ absurd (none-some (sym (rw (b, n) at h)))
      | inl n ↦ (
        is_bomb-IsBelowRatio total compressed b,
        (
          check_name-none (r ∷ rs) member.name n,
          λ target c. check_link-none member.name target (rw (b, n, c) at h),
        ),
      )
    ]
  ]

  check_tar_passes :
      (compressed total : ℕ) (member : TarInfo)
      → IsBelowRatio total compressed
      → IsSafeMember (r ∷ rs) member
      → check_tar (r ∷ rs) compressed total member ≡ none
  unfolding check_tar
  check_tar_passes compressed total member ratio (name, link) =
      let b = IsBelowRatio-is_bomb total compressed ratio in
      let n = check_name_passes r member.name rs name in
      elim (Option-cases member.linkname) [
        | inl c ↦ rw (b, n, c) refl
        | inr (target, c) ↦ rw (b, n, c) (check_link_passes member.name target (link target c))
      ]

  -- The check of a zip file, under a directory that is not the root of the file system, whose first
  -- component is not empty and whose components have no slash, has one of two ends. The entries are all safe: at most 50000 with at most 5 GiB in all, each below the ratio,
  -- under a name that is not suspicious, and with a target that leads to the directory or below it,
  -- component by component, where it is a link;
  -- then the number of entries and the sum of their sizes are returned. Or they are not all safe, and
  -- an exception is raised.
  pub extract_zip_lem :
      (infolist : List ZipInfo)
      → (IsSafeZip (r ∷ rs) infolist
          × (extract_zip (r ∷ rs) infolist
              ≡ ok (length infolist, sum_by (λ info. info.file_size) infolist)))
        ⊎ (¬ IsSafeZip (r ∷ rs) infolist
            × ((err : IngestError) × (extract_zip (r ∷ rs) infolist ≡ raised err)))
  unfolding extract_zip
  extract_zip_lem infolist = elim (Bool-cases (ltb max_file_count (length infolist))) [
    | inl many ↦ inr ((λ safe. ground (arith, many, safe.0)), (decompression_bomb, rw many refl))
    | inr few ↦
        elim (inspect_decides (λ info. info.file_size) (check_zip (r ∷ rs)) max_file_count
          max_uncompressed_bytes (λ n. 0 ≤ n) (IsSafeInfo (r ∷ rs)) (λ m n le w. omega arith)
          check_zip_passes check_zip_passed infolist (omega arith)) [
            | inl ((f, t, w, g), e) ↦ inl ((f, t, g), rw few e)
            | inr (unsafe, (err, e)) ↦
                inr ((λ (f, t, g). unsafe (f, t, omega arith, g)), (err, rw few e))
          ]
  ]

  -- The check of a tar file, under a directory that is not the root of the file system, whose first
  -- component is not empty and whose components have no slash, has the same two ends; here the ratio is that of the sum of the sizes to the size of the file, and every
  -- symbolic or hard link has a target that leads to the directory or below it.
  pub extract_tar_lem :
      (compressed_size : ℕ) (members : List TarInfo)
      → (IsSafeTar (r ∷ rs) compressed_size members
          × (extract_tar (r ∷ rs) compressed_size members
              ≡ ok (length members, sum_by (λ member. member.size) members)))
        ⊎ (¬ IsSafeTar (r ∷ rs) compressed_size members
            × ((err : IngestError) × (extract_tar (r ∷ rs) compressed_size members ≡ raised err)))
  unfolding extract_tar
  extract_tar_lem compressed_size members =
      elim (Bool-cases (ltb max_file_count (length members))) [
        | inl many ↦
            inr ((λ safe. ground (arith, many, safe.0)), (decompression_bomb, rw many refl))
        | inr few ↦
            elim (inspect_decides (λ member. member.size) (check_tar (r ∷ rs) compressed_size)
              max_file_count max_uncompressed_bytes (λ n. IsBelowRatio n compressed_size)
              (IsSafeMember (r ∷ rs)) (λ m n le w p. omega (arith, le, w p))
              (check_tar_passes compressed_size) (check_tar_passed compressed_size) members
              (λ p. omega arith)) [
                | inl ((f, t, w, g), e) ↦ inl ((f, t, w, g), rw few e)
                | inr (unsafe, (err, e)) ↦ inr (unsafe, (err, rw few e))
              ]
      ]
