-- ===== src/Ingest.antt =====
-- The ingestion of archives (backend/engine/ingest.py) on a POSIX system. A path is the list of its
-- components from the root on. The target directory is resolved, and nothing below it is a link
-- before the extraction, so that resolving a path below it only works on the text. Names have no
-- NUL.
pub mod Resolved
pub mod Contained
pub mod Inspected
pub mod Extracted
pub mod Saved
mod Tests
use sih.Prelude.{
  ℕ, zero, suc, ◌+◌, ◌*◌, ◌/◌, ◌%◌, ◌^◌, Bool, true, false, not, ◌&&◌, ◌||◌, Option, none, some,
  String, List, [], ◌∷◌, ◌++◌, map, any, length, ltb, ◌==◌, if◌then◌else◌,
}
use sih.Prelude.Text.{codes}
use sih.Prelude.Bytes.{Bytes, bytes_eq, starts_with}
use sih.Prelude.Split.{split_on, join_with}

abbrev pub max_upload_bytes : ℕ
max_upload_bytes = 2 * 1024 * 1024 * 1024

abbrev pub max_uncompressed_bytes : ℕ
max_uncompressed_bytes = 5 * 1024 * 1024 * 1024

abbrev pub max_file_count : ℕ
max_file_count = 50000

abbrev pub max_compression_ratio : ℕ
max_compression_ratio = 100

-- The exceptions; `read_failed` is the one of the library for a member that it cannot read.
pub data IngestError : Type 0 where
  archive_size_limit_exceeded zip_slip symlink_traversal decompression_bomb invalid_archive
        read_failed :
      IngestError

pub data Result {ℓ} (A : Type ℓ) : Type ℓ where
  ok : A → Result A
  raised : IngestError → Result A

-- `name.replace("\\", "/")`
unfoldable pub with_slashes : Bytes → Bytes
with_slashes = map (λ c. if c == b'\\' then b'/' else c)

abbrev pub is_up : Bytes → Bool
is_up = bytes_eq (codes "..")

abbrev pub has_colon : List Bytes → Bool
has_colon [] = false
has_colon (part ∷ parts) = any (λ c. c == b':') part

unfoldable pub is_suspicious_path : Bytes → Bool
is_suspicious_path name =
    let normalized = with_slashes name in
    let parts = split_on b'/' normalized in
    starts_with (codes "/") normalized
    || starts_with (codes "../") normalized
    || any is_up parts
    || has_colon parts

unfoldable pub parent : List Bytes → List Bytes
parent [] = []
parent (p ∷ []) = []
parent (p ∷ q ∷ ps) = p ∷ parent (q ∷ ps)

-- One component of a path that is resolved.
unfoldable pub enter : List Bytes → Bytes → List Bytes
enter dir part =
    if bytes_eq part [] || bytes_eq part (codes ".")
    then dir
    else if is_up part
    then parent dir
    else dir ++ part ∷ []

unfoldable pub enter_all : List Bytes → List Bytes → List Bytes
enter_all dir [] = dir
enter_all dir (part ∷ parts) = enter_all (enter dir part) parts

-- `(dir / name).resolve()`
unfoldable pub resolve : List Bytes → Bytes → List Bytes
resolve dir name = enter_all (if starts_with (codes "/") name then [] else dir) (split_on b'/' name)

-- `str(path)`
unfoldable pub path_text : List Bytes → Bytes
path_text dir = b'/' ∷ join_with b'/' dir

-- `s == root or s.startswith(root + os.sep)`
unfoldable pub is_within : List Bytes → List Bytes → Bool
is_within root dest =
    bytes_eq (path_text dest) (path_text root)
    || starts_with (path_text root ++ b'/' ∷ []) (path_text dest)

-- The checks of the name of an entry, and of the target of a link.
unfoldable pub check_name : List Bytes → Bytes → Option IngestError
check_name root name =
    if is_suspicious_path name
    then some zip_slip
    else if is_within root (resolve root name)
    then none
    else some zip_slip

unfoldable pub check_link : List Bytes → Bytes → Bytes → Option IngestError
check_link root name target =
    if is_suspicious_path target
    then some symlink_traversal
    else if is_within root (resolve (parent (resolve root name)) target)
    then none
    else some symlink_traversal

-- The loop over the entries of an archive, with the checks of an entry under the total so far.
module _ {E : Type 0} (size : E → ℕ) (check : ℕ → E → Option IngestError)
    (max_files max_total : ℕ) where
  unfoldable pub inspect : ℕ → ℕ → List E → Result (ℕ × ℕ)
  inspect file_count total [] = ok (file_count, total)
  inspect file_count total (e ∷ es) =
      let rest = inspect (suc file_count) (total + size e) es in
      if ltb max_files (suc file_count)
      then raised decompression_bomb
      else if ltb max_total (total + size e)
      then raised decompression_bomb
      else elim (check (total + size e) e) [ some err ↦ raised err | none ↦ rest ]

-- An entry of a zip file; `content` is what `zf.read` gives, decoded.
pub record ZipInfo : Type 0 where
  pub filename : Bytes
  pub file_size : ℕ
  pub compress_size : ℕ
  pub external_attr : ℕ
  pub content : Option Bytes

-- `(external_attr >> 16) & 0o120000 == 0o120000`: bits 15 and 13 of the mode.
unfoldable pub is_symlink : ZipInfo → Bool
is_symlink info =
    let mode = info.external_attr / 2 ^ 16 in mode / 2 ^ 15 % 2 == 1 && mode / 2 ^ 13 % 2 == 1

-- Below the limit of the total, the floating-point division exceeds the ratio just when the
-- product does.
unfoldable pub is_bomb : ℕ → ℕ → Bool
is_bomb expanded compressed = ltb 0 compressed && ltb (max_compression_ratio * compressed) expanded

unfoldable pub check_zip : List Bytes → ℕ → ZipInfo → Option IngestError
check_zip root total info =
    if is_bomb info.file_size info.compress_size
    then some decompression_bomb
    else elim (check_name root info.filename) [
      | some err ↦ some err
      | none ↦
          if is_symlink info
          then elim info.content [
            | none ↦ some read_failed
            | some target ↦ check_link root info.filename target
          ]
          else none
    ]

-- A member of a tar file; `linkname` is given for symbolic and hard links.
pub record TarInfo : Type 0 where
  pub name : Bytes
  pub size : ℕ
  pub linkname : Option Bytes

unfoldable pub check_tar : List Bytes → ℕ → ℕ → TarInfo → Option IngestError
check_tar root compressed_size total member =
    if is_bomb total compressed_size
    then some decompression_bomb
    else elim (check_name root member.name) [
      | some err ↦ some err
      | none ↦ elim member.linkname [
        | none ↦ none
        | some target ↦ check_link root member.name target
      ]
    ]

-- `_extract_zip` and `_extract_tar`, up to the extraction by the library.
unfoldable pub extract_zip : List Bytes → List ZipInfo → Result (ℕ × ℕ)
unfolding inspect
extract_zip root infolist =
    let inspected =
      inspect (λ info. info.file_size) (check_zip root) max_file_count max_uncompressed_bytes 0 0
        infolist in
    if ltb max_file_count (length infolist) then raised decompression_bomb else inspected

unfoldable pub extract_tar : List Bytes → ℕ → List TarInfo → Result (ℕ × ℕ)
unfolding inspect
extract_tar root compressed_size members =
    let inspected =
      inspect (λ member. member.size) (check_tar root compressed_size) max_file_count
        max_uncompressed_bytes 0 0 members in
    if ltb max_file_count (length members) then raised decompression_bomb else inspected

-- What the libraries read at the path of an archive; a tar file comes with its size on the disk.
pub data Archive : Type 0 where
  missing unsupported : Archive
  zip : List ZipInfo → Archive
  tar : ℕ → List TarInfo → Archive

unfoldable pub safe_extract_archive : List Bytes → Archive → Result (ℕ × ℕ)
safe_extract_archive root missing = raised invalid_archive
safe_extract_archive root unsupported = raised invalid_archive
safe_extract_archive root (zip infolist) = extract_zip root infolist
safe_extract_archive root (tar compressed_size members) = extract_tar root compressed_size members

-- The file at the destination while a stream is saved, and what the hasher was fed.
pub record Saving : Type 0 where
  pub written : Bytes
  pub hashed : Bytes
  pub total_bytes : ℕ

abbrev pub nothing_saved : Saving
nothing_saved = record { written = []; hashed = []; total_bytes = 0 }

module _ (hexdigest : Bytes → String) (max_bytes : ℕ) where
  abbrev pub with_chunk : Bytes → Saving → Saving
  with_chunk chunk s = record {
    written = s.written ++ chunk;
    hashed = s.hashed ++ chunk;
    total_bytes = s.total_bytes + length chunk;
  }

  -- `async_compute_stream_hash_and_save` over the chunks of the stream: the result, and the file
  -- at the destination.
  unfoldable pub async_save : Saving → List Bytes → Result (String × ℕ) × Option Bytes
  async_save s [] = (ok (hexdigest s.hashed, s.total_bytes), some s.written)
  async_save s (chunk ∷ chunks) =
      let rest = async_save (with_chunk chunk s) chunks in
      if ltb max_bytes (s.total_bytes + length chunk)
      then (raised archive_size_limit_exceeded, none)
      else rest

  -- `compute_stream_hash_and_save`, which ends at the first empty chunk; the list is what the reads
  -- give, and from its end on they give nothing.
  unfoldable pub sync_save : Saving → List Bytes → Result (String × ℕ) × Option Bytes
  sync_save s [] = (ok (hexdigest s.hashed, s.total_bytes), some s.written)
  sync_save s ([] ∷ chunks) = (ok (hexdigest s.hashed, s.total_bytes), some s.written)
  sync_save s ((b ∷ chunk) ∷ chunks) =
      let rest = sync_save (with_chunk (b ∷ chunk) s) chunks in
      if ltb max_bytes (s.total_bytes + length (b ∷ chunk))
      then (raised archive_size_limit_exceeded, none)
      else rest

  abbrev pub async_compute_stream_hash_and_save : List Bytes → Result (String × ℕ) × Option Bytes
  async_compute_stream_hash_and_save = async_save nothing_saved

  abbrev pub compute_stream_hash_and_save : List Bytes → Result (String × ℕ) × Option Bytes
  compute_stream_hash_and_save = sync_save nothing_saved
