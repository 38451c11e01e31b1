-- ===== src/Firmware/Ends.antt =====
-- The loop of the extraction ends when no header has a negative size.
use sih.Prelude.{
  ℕ, zero, suc, ◌+◌, ◌-◌, ◌*◌, ◌/◌, ◌<◌, ◌≡◌, refl, Bool, true, false, ◌&&◌, none, some, List,
  arith, Bool-cases, Option-cases, inl, inr, length, some_inj, none-some, sym, ap, ◌∙◌,
}
use sih.Prelude.Int.{ℤ, pos, negsuc, ◌+ℤ◌}
use sih.Prelude.Bytes.{Bytes}
use sih.Firmware.{
  File, Walk, Sizes, Layout, new_ascii, old_ascii, pad4, data_offset, padded_size, read_entry,
  after_entry, is_entry, read_header, walk_step, goes_on, walk_cpio, walk_start, extract_cpio,
}

abbrev pub is_signless : Sizes → Bool
is_signless s = elim s.filesize [
  | pos f ↦ elim s.namesize [ pos n ↦ true | negsuc n ↦ false ]
  | negsuc f ↦ false
]

-- The header at a position, if there is one, has no negative size.
unfoldable pub signless_at : Bytes → ℕ → Bool
signless_at content o = elim (read_header (pos o) content) [
  | none ↦ true
  | some (l, s) ↦ is_signless s
]

unfoldable pub signless_below : ℕ → Bytes → Bool
unfolding signless_at
signless_below zero content = true
signless_below (suc k) content = signless_at content k && signless_below k content

-- No position of the image has a header with a negative size.
unfoldable pub has_signless_headers : Bytes → Bool
has_signless_headers content = signless_below (length content) content

signless_below_sound :
    (k o : ℕ) (content : Bytes)
    → signless_below k content ≡ true
    → o < k
    → signless_at content o ≡ true
unfolding signless_below
signless_below_sound zero o content h lt = absurd (omega arith)
signless_below_sound (suc k) o content h lt = ground (arith, signless_below_sound k o content)

+ℤ-pos : (a b : ℕ) → pos a +ℤ pos b ≡ pos (a + b)
unfolding ◌+ℤ◌
+ℤ-pos a b = ground arith

-- With sizes that are not negative the offset grows.
next_offset :
    (l : Layout) (o f n : ℕ)
    → (o' : ℕ) × (data_offset l (pos o) (record { filesize = pos f; namesize = pos n })
          +ℤ padded_size l (pos f)
        ≡ pos o')
      × (o < o')
unfolding data_offset padded_size pad4
next_offset new_ascii o f n = (
  o + (110 + n + 3) / 4 * 4 + (f + 3) / 4 * 4,
  rw (+ℤ-pos 110 n) (rw (+ℤ-pos o ((110 + n + 3) / 4 * 4)) (+ℤ-pos _ _)),
  omega arith,
)
next_offset old_ascii o f n =
    (o + 76 + n + f, rw (+ℤ-pos o 76) (rw (+ℤ-pos (o + 76) n) (+ℤ-pos _ _)), omega arith)

next_of_signless :
    (l : Layout) (o : ℕ) (f n : ℤ)
    → is_signless (record { filesize = f; namesize = n }) ≡ true
    → (o' : ℕ) × (data_offset l (pos o) (record { filesize = f; namesize = n }) +ℤ padded_size l f
        ≡ pos o')
      × (o < o')
next_of_signless l o (pos f) (pos n) h = next_offset l o f n
next_of_signless l o (pos f) (negsuc n) h = cc h
next_of_signless l o (negsuc f) n h = cc h

read_entry_grows :
    (content : Bytes) (o : ℕ) (l : Layout) (s : Sizes) (w w' : Walk)
    → w.offset ≡ pos o
    → is_signless s ≡ true
    → read_entry l s content w ≡ some w'
    → (o' : ℕ) × (w'.offset ≡ pos o') × (o < o')
unfolding read_entry after_entry
read_entry_grows content o l s w w' e good r = elim (Bool-cases (is_entry l s content w)) [
  | inr no_entry ↦ absurd (none-some (rw no_entry at r))
  | inl entry ↦
      let (o', next, lt) = next_of_signless l o s.filesize s.namesize good in
      (o', sym (ap (λ (v : Walk). v.offset) (some_inj (rw entry at r))) ∙ (rw e next), lt)
]

walk_step_grows :
    (content : Bytes) (o : ℕ) (w w' : Walk)
    → w.offset ≡ pos o
    → signless_at content o ≡ true
    → walk_step content w ≡ some w'
    → (o' : ℕ) × (w'.offset ≡ pos o') × (o < o')
unfolding signless_at walk_step
walk_step_grows content o w w' e h step = elim (Option-cases (read_header (pos o) content)) [
  | inl none_read ↦ absurd (none-some (rw (e, none_read, walk_step) at step))
  | inr ((l, s), read) ↦
      read_entry_grows content o l s w w' e (rw (read, signless_at) at h)
        (rw (e, read, walk_step) at step)
]

module _ (max_files max_bytes : ℕ) (content : Bytes)
    (signless : has_signless_headers content ≡ true) where
  before_end :
      (o : ℕ) (w : Walk)
      → w.offset ≡ pos o
      → goes_on max_files max_bytes content w ≡ true
      → o < length content
  unfolding goes_on
  before_end o w e more = let m = rw e at more in ground (arith, m)

  walk_cpio-ends :
      (fuel o : ℕ) (w : Walk)
      → w.offset ≡ pos o
      → length content - o < fuel
      → (files : List File) × (walk_cpio fuel max_files max_bytes content w ≡ some files)
  unfolding walk_cpio has_signless_headers
  walk_cpio-ends zero o w e lt = absurd (omega arith)
  walk_cpio-ends (suc fuel) o w e lt = elim (Bool-cases (goes_on max_files max_bytes content w)) [
    | inr stop ↦ (w.files, rw (stop, walk_cpio) refl)
    | inl more ↦ elim (Option-cases (walk_step content w)) [
      | inl ended ↦ (w.files, rw (more, ended, walk_cpio) refl)
      | inr (w', step) ↦
          let inside : o < length content = before_end o w e more in
          let (o', e', grows) =
            walk_step_grows content o w w' e
              (signless_below_sound (length content) o content signless inside) step in
          let (files, ends) = walk_cpio-ends fuel o' w' e' (omega arith) in
          (files, rw (more, step, walk_cpio) ends)
    ]
  ]

-- When no header in the image has a negative size, one round more than the image has bytes is
-- enough fuel for the loop to end.
pub extract_cpio-ends :
    (max_files max_bytes : ℕ) (content : Bytes)
    → has_signless_headers content ≡ true
    → (files : List File) × (extract_cpio (suc (length content)) max_files max_bytes content
        ≡ some files)
unfolding extract_cpio
extract_cpio-ends max_files max_bytes content signless =
    walk_cpio-ends max_files max_bytes content signless (suc (length content)) 0 walk_start refl
      (omega arith)
