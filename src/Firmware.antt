-- ===== src/Firmware.antt =====
-- The extraction of firmware images (backend/engine/firmware.py). Offsets and sizes are integers,
-- since `int(text, 16)` reads a sign.
pub mod Paths
pub mod Bounds
pub mod Ends
pub mod Backward
mod Tests
use sih.Prelude.{
  ℕ, zero, suc, ◌+◌, ◌-◌, ◌*◌, ◌/◌, Bool, true, false, not, ◌&&◌, ◌||◌, Option, none, some, List,
  [], ◌∷◌, ◌++◌, keep, any, length, take, drop, ltb, leb, min, ◌==◌, if◌then◌else◌, sum_by,
}
use sih.Prelude.Int.{ℤ, pos, negsuc, ◌+ℤ◌, ltb_ℤ}
use sih.Prelude.Text.{codes}
use sih.Prelude.Bytes.{Bytes, bytes_eq, starts_with}
use sih.Prelude.Split.{split_on, join_with}
use sih.Prelude.Number.{parse_int, py_slice, negate}
use mathlib.Core.List.{reverse}

pub data Format : Type 0 where
  cpio squashfs : Format

abbrev pub cpio_magics : List Bytes
cpio_magics = codes "070701" ∷ codes "070702" ∷ codes "070707" ∷ []

abbrev pub squashfs_magics : List Bytes
squashfs_magics = codes "sqsh" ∷ codes "hsqs" ∷ codes "qshs" ∷ codes "shsq" ∷ []

unfoldable pub is_firmware_image : Bytes → Option Format
is_firmware_image content =
    if leb 6 (length content) && any (bytes_eq (take 6 content)) cpio_magics
    then some cpio
    else if leb 4 (length content) && any (bytes_eq (take 4 content)) squashfs_magics
    then some squashfs
    else none

-- The root of a `PurePosixPath`: exactly two slashes in front are kept as two.
abbrev pub path_root : Bytes → List Bytes
path_root raw_path =
    if starts_with (codes "//") raw_path && not (starts_with (codes "///") raw_path)
    then codes "//" ∷ []
    else if starts_with (codes "/") raw_path
    then codes "/" ∷ []
    else []

-- The components of a path that are not empty and not ".".
unfoldable pub path_names : Bytes → List Bytes
path_names raw_path =
    keep (λ p. not (bytes_eq p []) && not (bytes_eq p (codes "."))) (split_on b'/' raw_path)

-- `PurePosixPath(raw_path).parts`
unfoldable pub path_parts : Bytes → List Bytes
path_parts raw_path = path_root raw_path ++ path_names raw_path

abbrev pub is_kept_part : Bytes → Bool
is_kept_part p = not (bytes_eq p (codes "/") || bytes_eq p (codes "\\") || bytes_eq p [])

-- `if not parts: return None`
abbrev pub joined : List Bytes → Option Bytes
joined [] = none
joined (part ∷ parts) = some (join_with b'/' (part ∷ parts))

unfoldable pub sanitize_archive_path : Bytes → Option Bytes
sanitize_archive_path raw_path =
    if any (bytes_eq (codes "..")) (path_parts raw_path)
    then none
    else joined (keep is_kept_part (path_parts raw_path))

pub record File : Type 0 where
  pub name : Bytes
  pub content : Bytes

-- The variables of the loop of `extract_cpio`.
pub record Walk : Type 0 where
  pub offset : ℤ
  pub files : List File
  pub total : ℕ

-- The two sizes that a header gives.
pub record Sizes : Type 0 where
  pub filesize : ℤ
  pub namesize : ℤ

-- `(x + 3) & ~3`
unfoldable pub pad4 : ℤ → ℤ
pad4 (pos n) = pos ((n + 3) / 4 * 4)
pad4 (negsuc n) = negate ((n + 1) / 4 * 4)

-- The two layouts: the length of the header, and whether names and contents are padded.
pub data Layout : Type 0 where
  new_ascii old_ascii : Layout

abbrev pub header_len : Layout → ℕ
header_len new_ascii = 110
header_len old_ascii = 76

abbrev pub layout_of : Bytes → Option Layout
layout_of magic =
    if bytes_eq magic (codes "070701") || bytes_eq magic (codes "070702")
    then some new_ascii
    else if bytes_eq magic (codes "070707")
    then some old_ascii
    else none

-- Whether `offset + k > n` fails.
abbrev pub fits : ℤ → Bytes → Bool
fits end content = not (ltb_ℤ (pos (length content)) end)

abbrev pub both_sizes : Option ℤ → Option ℤ → Option Sizes
both_sizes none n = none
both_sizes (some f) none = none
both_sizes (some f) (some n) = some (record { filesize = f; namesize = n })

-- The sizes in the header at `offset`; `none` is a ValueError.
unfoldable pub header_sizes : Layout → ℤ → Bytes → Option Sizes
header_sizes new_ascii offset content =
    both_sizes (parse_int 16 (py_slice (offset +ℤ pos 54) (offset +ℤ pos 62) content))
      (parse_int 16 (py_slice (offset +ℤ pos 94) (offset +ℤ pos 102) content))
header_sizes old_ascii offset content =
    both_sizes (parse_int 8 (py_slice (offset +ℤ pos 35) (offset +ℤ pos 46) content))
      (parse_int 8 (py_slice (offset +ℤ pos 59) (offset +ℤ pos 65) content))

-- The checks from the top of the loop to the parsed header; `none` is a `break`.
unfoldable pub read_header : ℤ → Bytes → Option (Layout × Sizes)
unfolding header_sizes
read_header offset content =
    if fits (offset +ℤ pos 6) content
    then elim (layout_of (py_slice offset (offset +ℤ pos 6) content)) [
      | none ↦ none
      | some l ↦
          if fits (offset +ℤ pos (header_len l)) content
          then elim (header_sizes l offset content) [ none ↦ none | some s ↦ some (l, s) ]
          else none
    ]
    else none

unfoldable pub lstrip_nul : Bytes → Bytes
lstrip_nul [] = []
lstrip_nul (c ∷ s) = let rest = lstrip_nul s in if c == 0 then rest else c ∷ s

-- `.rstrip(b"\x00")`
unfoldable pub rstrip_nul : Bytes → Bytes
unfolding lstrip_nul
rstrip_nul s = reverse (lstrip_nul (reverse s))

unfoldable pub raw_name : Layout → ℤ → Sizes → Bytes → Bytes
unfolding rstrip_nul
raw_name l offset s content =
    let name_offset = offset +ℤ pos (header_len l) in
    rstrip_nul (py_slice name_offset (name_offset +ℤ s.namesize) content)

unfoldable pub data_offset : Layout → ℤ → Sizes → ℤ
data_offset new_ascii offset s = offset +ℤ pad4 (pos 110 +ℤ s.namesize)
data_offset old_ascii offset s = offset +ℤ pos 76 +ℤ s.namesize

unfoldable pub padded_size : Layout → ℤ → ℤ
padded_size new_ascii size = pad4 size
padded_size old_ascii size = size

-- `if clean_name and filesize > 0:`; a clean name is never empty.
unfoldable pub add_file : Option Bytes → ℤ → Bytes → Walk → Walk
add_file none size content w = w
add_file (some name) size content w =
    if ltb_ℤ (pos 0) size
    then record w {
      files = w.files ++ record { name = name; content = content } ∷ [];
      total = w.total + length content;
    }
    else w

-- The checks after the header: the name and the content lie in the image, and the entry is not
-- the trailer.
unfoldable pub is_entry : Layout → Sizes → Bytes → Walk → Bool
unfolding raw_name data_offset
is_entry l s content w =
    fits (w.offset +ℤ pos (header_len l) +ℤ s.namesize) content
    && (not (bytes_eq (raw_name l w.offset s content) (codes "TRAILER!!!"))
        && fits (data_offset l w.offset s +ℤ s.filesize) content)

unfoldable pub after_entry : Layout → Sizes → Bytes → Walk → Walk
unfolding add_file raw_name data_offset padded_size
after_entry l s content w =
    let start = data_offset l w.offset s in
    let chunk = py_slice start (start +ℤ s.filesize) content in
    let added =
      add_file (sanitize_archive_path (raw_name l w.offset s content)) s.filesize chunk w in
    record added { offset = start +ℤ padded_size l s.filesize }

-- The entry behind a header, to the end of the loop's body; `none` is a `break`.
unfoldable pub read_entry : Layout → Sizes → Bytes → Walk → Option Walk
read_entry l s content w = if is_entry l s content w then some (after_entry l s content w) else none

-- One round of the loop.
unfoldable pub walk_step : Bytes → Walk → Option Walk
walk_step content w = elim (read_header w.offset content) [
  | none ↦ none
  | some (l, s) ↦ read_entry l s content w
]

-- The test of the loop.
unfoldable pub goes_on : ℕ → ℕ → Bytes → Walk → Bool
goes_on max_files max_bytes content w =
    ltb_ℤ w.offset (pos (length content))
    && (ltb (length w.files) max_files && ltb w.total max_bytes)

-- The loop, on fuel; `none` means that the fuel ran out.
unfoldable pub walk_cpio : ℕ → ℕ → ℕ → Bytes → Walk → Option (List File)
walk_cpio zero max_files max_bytes content w = none
walk_cpio (suc fuel) max_files max_bytes content w = elim (goes_on max_files max_bytes content w) [
  | false ↦ some w.files
  | true ↦ elim (walk_step content w) [
    | none ↦ some w.files
    | some w' ↦ walk_cpio fuel max_files max_bytes content w'
  ]
]

abbrev pub walk_start : Walk
walk_start = record { offset = pos 0; files = []; total = 0 }

unfoldable pub extract_cpio : ℕ → ℕ → ℕ → Bytes → Option (List File)
unfolding walk_cpio
extract_cpio fuel max_files max_bytes content =
    walk_cpio fuel max_files max_bytes content walk_start

-- `struct.unpack("<Q", …)` of eight bytes
unfoldable pub unpack_le : Bytes → ℕ
unpack_le [] = 0
unpack_le (b ∷ bs) = b + 256 * unpack_le bs

unfoldable pub extract_squashfs : Bytes → List File
unfolding unpack_le
extract_squashfs content =
    let bytes_used = unpack_le (take 8 (drop 40 content)) in
    let slice_len =
      min (length content) (if ltb 0 bytes_used then bytes_used else length content) in
    record { name = codes "squashfs_root.img"; content = take slice_len content } ∷ []

unfoldable pub extract_firmware : ℕ → ℕ → ℕ → Bytes → Option (List File)
unfolding is_firmware_image extract_cpio extract_squashfs
extract_firmware fuel max_files max_bytes content = elim (is_firmware_image content) [
  | none ↦ some []
  | some cpio ↦ extract_cpio fuel max_files max_bytes content
  | some squashfs ↦ if leb 96 (length content) then some (extract_squashfs content) else some []
]
