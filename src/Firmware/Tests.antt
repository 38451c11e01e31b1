-- ===== src/Firmware/Tests.antt =====
-- Runs of the extraction of firmware images.
use sih.Prelude.{
  ◌+◌, ◌≤◌, ◌≡◌, ◌≢◌, refl, max, true, false, none, some, List, [], ◌∷◌, ◌++◌, All, arith, suc,
  length,
}
use sih.Prelude.Text.{codes}
use sih.Prelude.Bytes.{Bytes, bytes_eq, starts_with}
use sih.Prelude.Int.{pos, negsuc, ◌+ℤ◌}
use sih.Prelude.Number.{parse_int, digit_of, py_slice}
use sih.Prelude.Split.{split_on, join_with}
use sih.Firmware.{
  sanitize_archive_path, path_names, path_parts, extract_cpio, extract_firmware, File, pad4,
  read_header, raw_name, walk_step, goes_on, read_entry, is_entry, after_entry, new_ascii,
}
use sih.Firmware.Paths.{is_double, sanitize_archive_path_lem}
use sih.Firmware.Bounds.{extract_firmware_bounds}
use sih.Firmware.Ends.{has_signless_headers, signless_below, extract_cpio-ends}
use sih.Firmware.Backward.{extract_cpio-loops}

parses : parse_int 16 (codes " -0x1_F ") ≡ some (negsuc 30)
unfolding parse_int digit_of
parses = refl

cleaned : sanitize_archive_path (codes "/etc//./passwd") ≡ some (codes "etc/passwd")
unfolding sanitize_archive_path path_parts path_names split_on join_with bytes_eq starts_with
cleaned = refl

-- An absolute path is kept absolute.
absolute : sanitize_archive_path (codes "//etc/passwd") ≡ some (codes "///etc/passwd")
unfolding sanitize_archive_path path_parts path_names split_on join_with bytes_eq starts_with
absolute = refl

sanitize_archive_path_lem_example :
    All (λ p. p ≢ codes "..") (split_on b'/' (codes "etc/passwd"))
    × (starts_with (codes "/") (codes "etc/passwd") ≡ is_double (codes "/etc//./passwd"))
sanitize_archive_path_lem_example =
    sanitize_archive_path_lem (codes "/etc//./passwd") (codes "etc/passwd") cleaned

-- An image with one file of four bytes.
abbrev image : Bytes
image =
    codes
      "07070100000000000000000000000000000000000000000000000000000004000000000000000000000000000000000000000200000000"
    ++ 97 ∷ 0 ∷ 1 ∷ 2 ∷ 3 ∷ 4 ∷ []

-- The same header with the size -112.
abbrev backward : Bytes
backward =
    codes
      "070701000000000000000000000000000000000000000000000000-0000070000000000000000000000000000000000000000200000000"
    ++ 97 ∷ 0 ∷ []

image_files :
    extract_firmware 3 500 1000 image
    ≡ some (record { name = codes "a"; content = 1 ∷ 2 ∷ 3 ∷ 4 ∷ [] } ∷ [])
unfolding extract_firmware walk_step read_header read_entry is_entry after_entry goes_on parse_int
    digit_of pad4 py_slice ◌+ℤ◌ sanitize_archive_path path_parts path_names split_on join_with
    bytes_eq starts_with
image_files = refl

extract_firmware_bounds_example :
    (1 ≤ max 1 500)
    × (4 ≤ 1000 + length image)
    × All
        (λ (f : File). All (λ p. p ≢ codes "..") (split_on b'/' f.name))
        (record { name = codes "a"; content = 1 ∷ 2 ∷ 3 ∷ 4 ∷ [] } ∷ [])
extract_firmware_bounds_example =
    extract_firmware_bounds 3 500 1000 image
      (record { name = codes "a"; content = 1 ∷ 2 ∷ 3 ∷ 4 ∷ [] } ∷ []) image_files

image_signless : has_signless_headers image ≡ true
unfolding has_signless_headers signless_below read_header parse_int digit_of py_slice ◌+ℤ◌ bytes_eq
image_signless = refl

extract_cpio-ends_example :
    (files : List File) × (extract_cpio (suc (length image)) 500 1000 image ≡ some files)
extract_cpio-ends_example = extract_cpio-ends 500 1000 image image_signless

backward_header :
    read_header (pos 0) backward
    ≡ some (new_ascii, record { filesize = negsuc 111; namesize = pos 2 })
unfolding read_header parse_int digit_of py_slice ◌+ℤ◌ bytes_eq
backward_header = refl

backward_name :
    bytes_eq
      (raw_name new_ascii (pos 0) (record { filesize = negsuc 111; namesize = pos 2 }) backward)
      (codes "TRAILER!!!")
    ≡ false
unfolding raw_name py_slice ◌+ℤ◌ bytes_eq
backward_name = refl

extract_cpio-loops_example : extract_cpio 1000000 500 1000 backward ≡ none
extract_cpio-loops_example =
    extract_cpio-loops 1000000 500 1000 2 27 backward (omega arith) (omega arith) refl (omega arith)
      backward_header backward_name
