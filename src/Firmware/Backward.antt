-- ===== src/Firmware/Backward.antt =====
-- A header with a negative size leads the loop of the extraction back to where it was.
use sih.Prelude.{
  ℕ, zero, suc, ◌+◌, ◌*◌, ◌/◌, ◌≤◌, ◌<◌, ◌≡◌, refl, true, false, Option, none, some, arith, ap, ◌∙◌,
  length,
}
use sih.Prelude.Int.{ℤ, pos, negsuc, ◌+ℤ◌}
use sih.Prelude.Text.{codes}
use sih.Prelude.Bytes.{Bytes, bytes_eq}
use sih.Firmware.{
  Walk, Sizes, new_ascii, pad4, data_offset, padded_size, read_entry, after_entry, is_entry,
  add_file, read_header, walk_step, goes_on, walk_cpio, walk_start, extract_cpio, raw_name, fits,
}

-- A round that changes nothing is repeated until the fuel ends.
loops :
    (fuel max_files max_bytes : ℕ) (content : Bytes) (w : Walk)
    → goes_on max_files max_bytes content w ≡ true
    → walk_step content w ≡ some w
    → walk_cpio fuel max_files max_bytes content w ≡ none
unfolding walk_cpio
loops zero max_files max_bytes content w more same = refl
loops (suc fuel) max_files max_bytes content w more same =
    rw (more, same, walk_cpio) (loops fuel max_files max_bytes content w more same)

-- A size that is not above 0 adds no file.
add_file_none :
    (name : Option Bytes) (k : ℕ) (chunk : Bytes) (w : Walk) → add_file name (negsuc k) chunk w ≡ w
unfolding add_file
add_file_none none k chunk w = refl
add_file_none (some name) k chunk w = ground arith

abbrev back : ℕ → ℕ → Sizes
back n k = record { filesize = negsuc (4 * k + 3); namesize = pos n }

+ℤ-pos : (a b : ℕ) → pos a +ℤ pos b ≡ pos (a + b)
unfolding ◌+ℤ◌
+ℤ-pos a b = ground arith

+ℤ-back : (k : ℕ) → pos (4 * suc k) +ℤ negsuc (4 * k + 3) ≡ pos 0
unfolding ◌+ℤ◌
+ℤ-back k = ground arith

pad4-back : (k : ℕ) → pad4 (negsuc (4 * k + 3)) ≡ negsuc (4 * k + 3)
unfolding pad4
pad4-back k = rw (exact k) refl
  where
    exact : (k : ℕ) → (4 * k + 3 + 1) / 4 * 4 ≡ suc (4 * k + 3)
    exact k = omega arith

data_offset-back :
    (n k : ℕ)
    → (110 + n + 3) / 4 ≡ suc k
    → data_offset new_ascii (pos 0) (back n k) ≡ pos (4 * suc k)
unfolding data_offset pad4
data_offset-back n k pad =
    rw (+ℤ-pos 110 n) (+ℤ-pos 0 ((110 + n + 3) / 4 * 4) ∙ ap pos (omega (arith, pad)))

fits_below : (a : ℕ) (content : Bytes) → a ≤ length content → fits (pos a) content ≡ true
fits_below a content h = ground arith

-- An image of the new ASCII format whose first header has a name of `n` bytes and the size
-- -4(k + 1), where 4(k + 1) is the padded length of header and name: for every fuel the loop does
-- not end.
pub extract_cpio-loops :
    (fuel max_files max_bytes n k : ℕ) (content : Bytes)
    → 0 < max_files
    → 0 < max_bytes
    → (110 + n + 3) / 4 ≡ suc k
    → 4 * suc k ≤ length content
    → read_header (pos 0) content ≡ some (new_ascii, back n k)
    → bytes_eq (raw_name new_ascii (pos 0) (back n k) content) (codes "TRAILER!!!") ≡ false
    → extract_cpio fuel max_files max_bytes content ≡ none
unfolding extract_cpio goes_on walk_step read_entry is_entry after_entry padded_size
extract_cpio-loops fuel max_files max_bytes n k content mf mb pad long header name =
    loops fuel max_files max_bytes content walk_start (ground arith)
      (rw (header, walk_step) (rw (entry, read_entry) (ap some stays)))
  where
    name_fits : fits (pos 0 +ℤ pos 110 +ℤ pos n) content ≡ true
    name_fits =
        rw
          (ap (λ (z : ℤ). fits (z +ℤ pos n) content) (+ℤ-pos 0 110)
            ∙ ap (λ (z : ℤ). fits z content) (+ℤ-pos (0 + 110) n))
          (fits_below (0 + 110 + n) content (omega (arith, pad, long)))

    content_fits :
        fits (data_offset new_ascii (pos 0) (back n k) +ℤ negsuc (4 * k + 3)) content ≡ true
    content_fits =
        rw
          (ap (λ (z : ℤ). fits (z +ℤ negsuc (4 * k + 3)) content) (data_offset-back n k pad)
            ∙ ap (λ (z : ℤ). fits z content) (+ℤ-back k))
          (fits_below 0 content (omega arith))

    entry : is_entry new_ascii (back n k) content walk_start ≡ true
    entry = ground (arith, name_fits, content_fits, name)

    stays : after_entry new_ascii (back n k) content walk_start ≡ walk_start
    stays =
        rw (data_offset-back n k pad, pad4-back k, +ℤ-back k)
          (rw (add_file_none _ (4 * k + 3) _ walk_start) refl)
