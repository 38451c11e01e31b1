-- ===== src/Ingest/Saved.antt =====
-- What the saving of a stream returns and leaves (`async_compute_stream_hash_and_save` and
-- `compute_stream_hash_and_save`).
use sih.Prelude.{
  ℕ, ◌+◌, ◌≤◌, ◌≡◌, refl, sym, ap, ◌∙◌, true, false, Option, none, some, String, List, [], ◌∷◌,
  ◌++◌, length, leb, ltb, arith, Bool-cases, inl, inr, append-nil, append_assoc, if◌then◌else◌,
}
use sih.Prelude.Bytes.{Bytes}
use sih.Ingest.{
  Result, ok, raised, archive_size_limit_exceeded, Saving, nothing_saved, with_chunk, async_save,
  sync_save, async_compute_stream_hash_and_save, compute_stream_hash_and_save,
}

-- All bytes of a stream.
pub joined : List Bytes → Bytes
joined [] = []
joined (chunk ∷ chunks) = chunk ++ joined chunks

-- The chunks up to the first that is empty.
pub until_end : List Bytes → List Bytes
until_end [] = []
until_end ([] ∷ chunks) = []
until_end ((b ∷ chunk) ∷ chunks) = (b ∷ chunk) ∷ until_end chunks

length-append : (a b : Bytes) → length (a ++ b) ≡ length a + length b
length-append [] b = omega arith
length-append (x ∷ a) b = omega (arith, length-append a b)

module _ (hexdigest : Bytes → String) (max_bytes : ℕ) where
  -- What is returned for a stream, in one step.
  abbrev pub whole : Bytes → Result (String × ℕ) × Option Bytes
  whole bytes =
      if leb (length bytes) max_bytes
      then (ok (hexdigest bytes, length bytes), some bytes)
      else (raised archive_size_limit_exceeded, none)

  abbrev so_far : Bytes → Saving
  so_far bytes = record { written = bytes; hashed = bytes; total_bytes = length bytes }

  async_save-whole :
      (bytes : Bytes) (chunks : List Bytes)
      → length bytes ≤ max_bytes
      → async_save hexdigest max_bytes (so_far bytes) chunks ≡ whole (bytes ++ joined chunks)
  unfolding async_save joined
  async_save-whole bytes [] h =
      let e : leb (length bytes) max_bytes ≡ true = ground (arith, h) in
      rw (append-nil bytes, e) refl
  async_save-whole bytes (chunk ∷ chunks) h =
      let tail = joined chunks in
      elim (Bool-cases (ltb max_bytes (length bytes + length chunk))) [
        | inl k ↦
            let e : leb (length (bytes ++ (chunk ++ tail))) max_bytes ≡ false =
              ground (arith, k, length-append bytes (chunk ++ tail), length-append chunk tail) in
            rw (k, e) refl
        | inr k ↦ rw k (
            rw (sym (length-append bytes chunk)) (
              async_save-whole (bytes ++ chunk) chunks
                (ground (arith, k, length-append bytes chunk))
              ∙ ap whole (append_assoc bytes chunk tail)))
      ]

  sync_save-until_end :
      (s : Saving) (chunks : List Bytes)
      → sync_save hexdigest max_bytes s chunks ≡ async_save hexdigest max_bytes s (until_end chunks)
  unfolding sync_save async_save until_end
  sync_save-until_end s [] = refl
  sync_save-until_end s ([] ∷ chunks) = refl
  sync_save-until_end s ((b ∷ chunk) ∷ chunks) =
      ap
        (λ rest.
          if ltb max_bytes (s.total_bytes + length (b ∷ chunk))
          then (raised archive_size_limit_exceeded, none)
          else rest)
        (sync_save-until_end (with_chunk hexdigest max_bytes (b ∷ chunk) s) chunks)

  -- A stream of at most `max_bytes` bytes is saved whole, with the digest and the number of all its
  -- bytes; of a longer one nothing is left at the destination, and the limit is reported. So do both
  -- functions, where the synchronous one takes the chunks up to the first that is empty.
  pub saved_whole :
      (chunks : List Bytes)
      → (async_compute_stream_hash_and_save hexdigest max_bytes chunks ≡ whole (joined chunks))
        × (compute_stream_hash_and_save hexdigest max_bytes chunks
            ≡ whole (joined (until_end chunks)))
  saved_whole chunks =
      let async = λ (cs : List Bytes). async_save-whole [] cs (omega arith) in
      (async chunks, sync_save-until_end nothing_saved chunks ∙ async (until_end chunks))
