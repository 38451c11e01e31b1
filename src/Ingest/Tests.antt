-- ===== src/Ingest/Tests.antt =====
-- Runs of the ingestion of archives.
use sih.Prelude.{All, arith, ◌≢◌, ◌≡◌, ◌⊎◌, refl, true, none, some, List, [], ◌∷◌, ◌++◌}
use sih.Prelude.Text.{codes}
use sih.Prelude.Bytes.{Bytes, starts_with, bytes_eq}
use sih.Prelude.Split.{Lacks, split_on, join_with}
use sih.Ingest.{
  IngestError, ok, raised, symlink_traversal, is_suspicious_path, resolve, is_within, ZipInfo,
  TarInfo, extract_zip, extract_tar, async_compute_stream_hash_and_save,
  compute_stream_hash_and_save, with_slashes, check_zip, check_name, check_link, is_bomb,
  is_symlink, path_text, parent, enter, enter_all,
}
use sih.Ingest.Resolved.{is_within-resolve}
use sih.Ingest.Extracted.{IsSafeZip, IsSafeTar, extract_zip_lem, extract_tar_lem}
use sih.Ingest.Saved.{joined, until_end, whole, saved_whole}

abbrev sandbox : List Bytes
sandbox = codes "tmp" ∷ codes "sandbox" ∷ []

abbrev source_file : ZipInfo
source_file = record {
  filename = codes "src/keys.py";
  file_size = 900;
  compress_size = 300;
  external_attr = 0;
  content = some [];
}

abbrev link_file : ZipInfo
link_file = record source_file {
  filename = codes "src/link";
  external_attr = 2684354560;
  content = some (codes "../../etc/passwd");
}

sandbox_named : codes "tmp" ≢ []
sandbox_named e = cc e

sandbox_plain : All (Lacks b'/') sandbox
sandbox_plain = ground arith

is_within-resolve_example :
    ((below : List Bytes) × (resolve sandbox (codes "src\\..b/keys.py") ≡ sandbox ++ below))
    × (is_within sandbox (resolve sandbox (codes "src\\..b/keys.py")) ≡ true)
unfolding is_suspicious_path with_slashes split_on starts_with bytes_eq
is_within-resolve_example =
    is_within-resolve (codes "tmp") (codes "src\\..b/keys.py") (codes "sandbox" ∷ []) refl

extract_zip_lem_example :
    (IsSafeZip sandbox (source_file ∷ link_file ∷ [])
      × (extract_zip sandbox (source_file ∷ link_file ∷ []) ≡ ok (2, 1800)))
    ⊎ (¬ IsSafeZip sandbox (source_file ∷ link_file ∷ [])
        × ((err : IngestError) × (extract_zip sandbox (source_file ∷ link_file ∷ []) ≡ raised err)))
extract_zip_lem_example =
    extract_zip_lem (codes "tmp") (codes "sandbox" ∷ []) sandbox_named sandbox_plain
      (source_file ∷ link_file ∷ [])

link_refused : extract_zip sandbox (source_file ∷ link_file ∷ []) ≡ raised symlink_traversal
unfolding extract_zip check_zip check_name check_link is_bomb is_symlink is_suspicious_path
    with_slashes split_on resolve is_within path_text parent enter enter_all starts_with bytes_eq
    join_with
link_refused = refl

abbrev member : TarInfo
member = record { name = codes "lib/a.so"; size = 4000; linkname = none }

extract_tar_lem_example :
    (IsSafeTar sandbox 10 (member ∷ []) × (extract_tar sandbox 10 (member ∷ []) ≡ ok (1, 4000)))
    ⊎ (¬ IsSafeTar sandbox 10 (member ∷ [])
        × ((err : IngestError) × (extract_tar sandbox 10 (member ∷ []) ≡ raised err)))
extract_tar_lem_example =
    extract_tar_lem (codes "tmp") (codes "sandbox" ∷ []) sandbox_named sandbox_plain 10
      (member ∷ [])

saved_whole_example :
    (async_compute_stream_hash_and_save (λ b. "digest") 6 (codes "abc" ∷ codes "defg" ∷ [])
      ≡ whole (λ b. "digest") 6 (joined (codes "abc" ∷ codes "defg" ∷ [])))
    × (compute_stream_hash_and_save (λ b. "digest") 6 (codes "abc" ∷ codes "defg" ∷ [])
        ≡ whole (λ b. "digest") 6 (joined (until_end (codes "abc" ∷ codes "defg" ∷ []))))
saved_whole_example = saved_whole (λ b. "digest") 6 (codes "abc" ∷ codes "defg" ∷ [])
