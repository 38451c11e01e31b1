-- ===== src/Firmware/Bounds.antt =====
-- The limits of the extraction: how many files, how many bytes, and their names.
use sih.Prelude.{
  ℕ, zero, suc, ◌+◌, ◌-◌, ◌≤◌, ◌<◌, ◌≡◌, ◌≢◌, refl, subst, max, true, Option, none, some, List, [],
  ◌∷◌, arith, All, All-append, Bool-cases, Option-cases, inl, inr, ltb, leb, min, length,
  length-append, length-take, length-drop, take, drop, sum_by, sum_by-append, some_inj, none-some,
  if◌then◌else◌,
}
use sih.Prelude.Text.{codes}
use sih.Prelude.Int.{ℤ, pos, ◌+ℤ◌, ltb_ℤ}
use sih.Prelude.Bytes.{Bytes}
use sih.Prelude.Number.{py_slice, slice_position}
use sih.Prelude.Split.{split_on}
use sih.Firmware.{
  File, Walk, Sizes, Layout, cpio, squashfs, add_file, sanitize_archive_path, raw_name, data_offset,
  read_entry, after_entry, is_entry, read_header, walk_step, goes_on, walk_cpio, walk_start,
  extract_cpio, extract_squashfs, extract_firmware, is_firmware_image, unpack_le,
}
use sih.Firmware.Paths.{sanitize_archive_path_lem}

length-py_slice : (a b : ℤ) (content : Bytes) → length (py_slice a b content) ≤ length content
unfolding py_slice
length-py_slice a b content =
    let i = slice_position (length content) a in
    omega (
      arith,
      length-take {0} (slice_position (length content) b - i) (drop i content),
      length-drop {0} i content,
    )

abbrev pub size_sum : List File → ℕ
size_sum = sum_by (λ f. length f.content)

abbrev pub IsNamed : File → Type 0
IsNamed f = All (λ p. p ≢ codes "..") (split_on b'/' f.name)

record IsBounded (max_files max_bytes n : ℕ) (w : Walk) : Type 0 where
  count : length w.files ≤ max_files
  bytes : size_sum w.files ≤ max_bytes + n
  summed : w.total ≡ size_sum w.files
  named : All IsNamed w.files

module _ (max_files max_bytes : ℕ) (content : Bytes) where
  add_file-IsBounded :
      (raw_path chunk : Bytes) (size : ℤ) (name : Option Bytes) (w : Walk)
      → sanitize_archive_path raw_path ≡ name
      → length chunk ≤ length content
      → length w.files < max_files
      → w.total < max_bytes
      → IsBounded max_files max_bytes (length content) w
      → IsBounded max_files max_bytes (length content) (add_file name size chunk w)
  unfolding add_file
  add_file-IsBounded raw_path chunk size none w e l f t b = b
  add_file-IsBounded raw_path chunk size (some name) w e l f t b =
      elim (Bool-cases (ltb_ℤ (pos 0) size)) [
        | inr empty ↦ rw empty b
        | inl kept ↦ rw kept (record {
          count =
              omega
                (arith, length-append {0} w.files (record { name = name; content = chunk } ∷ []));
          bytes = omega (
            arith,
            b.summed,
            sum_by-append {0} (λ g. length g.content) w.files
                (record { name = name; content = chunk } ∷ []),
          );
          summed = omega (
            arith,
            b.summed,
            sum_by-append {0} (λ g. length g.content) w.files
                (record { name = name; content = chunk } ∷ []),
          );
          named =
              All-append IsNamed w.files (record { name = name; content = chunk } ∷ []) b.named
                ((sanitize_archive_path_lem raw_path name e).0, tt);
        })
      ]

  read_entry-IsBounded :
      (l : Layout) (s : Sizes) (w w' : Walk)
      → read_entry l s content w ≡ some w'
      → length w.files < max_files
      → w.total < max_bytes
      → IsBounded max_files max_bytes (length content) w
      → IsBounded max_files max_bytes (length content) w'
  unfolding read_entry after_entry
  read_entry-IsBounded l s w w' h f t b = elim (Bool-cases (is_entry l s content w)) [
    | inr no_entry ↦ absurd (none-some (rw no_entry at h))
    | inl entry ↦
        let start = data_offset l w.offset s in
        let chunk = py_slice start (start +ℤ s.filesize) content in
        let name = raw_name l w.offset s content in
        let a =
          add_file-IsBounded name chunk s.filesize (sanitize_archive_path name) w refl
            (length-py_slice start (start +ℤ s.filesize) content) f t b in
        subst (IsBounded max_files max_bytes (length content)) (some_inj (rw entry at h))
          (record { count = a.count; bytes = a.bytes; summed = a.summed; named = a.named })
  ]

  walk_step-IsBounded :
      (w w' : Walk)
      → walk_step content w ≡ some w'
      → length w.files < max_files
      → w.total < max_bytes
      → IsBounded max_files max_bytes (length content) w
      → IsBounded max_files max_bytes (length content) w'
  unfolding walk_step
  walk_step-IsBounded w w' h f t b = elim (Option-cases (read_header w.offset content)) [
    | inl e ↦ absurd (none-some (rw (e, walk_step) at h))
    | inr ((l, s), e) ↦ read_entry-IsBounded l s w w' (rw (e, walk_step) at h) f t b
  ]

  room :
      (w : Walk)
      → goes_on max_files max_bytes content w ≡ true
      → (length w.files < max_files) × (w.total < max_bytes)
  unfolding goes_on
  room w h = (ground (arith, h), ground (arith, h))

  walk_cpio-IsBounded :
      (fuel : ℕ) (w : Walk) (files : List File)
      → walk_cpio fuel max_files max_bytes content w ≡ some files
      → IsBounded max_files max_bytes (length content) w
      → (length files ≤ max_files)
        × (size_sum files ≤ max_bytes + length content)
        × All IsNamed files
  unfolding walk_cpio
  walk_cpio-IsBounded zero w files h b = absurd (none-some h)
  walk_cpio-IsBounded (suc fuel) w files h b =
      elim (Bool-cases (goes_on max_files max_bytes content w)) [
        | inr stop ↦ rw (← some_inj (rw (stop, walk_cpio) at h)) (b.count, b.bytes, b.named)
        | inl more ↦ elim (Option-cases (walk_step content w)) [
          | inl e ↦ rw (← some_inj (rw (more, e, walk_cpio) at h)) (b.count, b.bytes, b.named)
          | inr (w', e) ↦
              let (f, t) = room w more in
              walk_cpio-IsBounded fuel w' files (rw (more, e, walk_cpio) at h)
                (walk_step-IsBounded w w' e f t b)
        ]
      ]

extract_squashfs_bounds :
    (content : Bytes)
    → (length (extract_squashfs content) ≡ 1)
      × (size_sum (extract_squashfs content) ≤ length content)
      × All IsNamed (extract_squashfs content)
unfolding extract_squashfs split_on
extract_squashfs_bounds content = (
  refl,
  let used = unpack_le (take 8 (drop 40 content)) in
      omega (
        arith,
        length-take {0} (min (length content) (if ltb 0 used then used else length content))
            content,
      ),
  (((λ e. cc e), tt), tt),
)

-- For every fuel: the extraction gives at most `max_files` files (one for a squashfs image), whose
-- contents together exceed `max_bytes` by at most the size of the image, and no component of a
-- file's name is "..".
pub extract_firmware_bounds :
    (fuel max_files max_bytes : ℕ) (content : Bytes) (files : List File)
    → extract_firmware fuel max_files max_bytes content ≡ some files
    → (length files ≤ max 1 max_files)
      × (sum_by (λ f. length f.content) files ≤ max_bytes + length content)
      × All (λ f. All (λ p. p ≢ codes "..") (split_on b'/' f.name)) files
unfolding extract_firmware extract_cpio
extract_firmware_bounds fuel max_files max_bytes content files h =
    elim (Option-cases (is_firmware_image content)) [
      | inl e ↦ rw (← some_inj (rw (e, extract_firmware) at h)) (omega arith, omega arith, tt)
      | inr (cpio, e) ↦
          let b =
            walk_cpio-IsBounded max_files max_bytes content fuel walk_start files
              (rw (e, extract_firmware) at h)
              (record { count = omega arith; bytes = omega arith; summed = refl; named = tt }) in
          (omega (arith, b.0), b.1, b.2)
      | inr (squashfs, e) ↦ squashfs_bounds (rw (e, extract_firmware) at h)
    ]
  where
    squashfs_bounds :
        (if leb 96 (length content) then some (extract_squashfs content) else some []) ≡ some files
        → (length files ≤ max 1 max_files)
          × (size_sum files ≤ max_bytes + length content)
          × All IsNamed files
    squashfs_bounds k = elim (Bool-cases (leb 96 (length content))) [
      | inl e ↦
          let (count, bytes, named) = extract_squashfs_bounds content in
          rw (← some_inj (rw e at k)) (omega (arith, count), omega (arith, bytes), named)
      | inr e ↦ rw (← some_inj (rw e at k)) (omega arith, omega arith, tt)
    ]
