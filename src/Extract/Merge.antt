-- ===== src/Extract/Merge.antt =====
-- Merging windows keeps the positions that they cover, and leaves gaps between them.
use sih.Prelude.{
  ℕ, zero, suc, ◌+◌, ◌-◌, ◌*◌, ◌≤◌, ◌<◌, max, ◌≡◌, refl, ◌∙◌, ap, Bool, true, false, ◌&&◌, ◌||◌,
  List, [], ◌∷◌, any, length, ltb, leb, leb→le, arith, All, Bool-cases, inl, inr,
}
use sih.Prelude.Bytes.{Bytes, slice}
use sih.Extract.{Window, high_from, merge_from}

-- Whether a window holds the position.
abbrev pub covers : List Window → ℕ → Bool
covers ws p = any (λ w. leb w.start p && ltb p w.stop) ws

-- Windows in the order of their starts, none empty, the first not before `lo`.
abbrev pub IsSorted : ℕ → List Window → Type 0
IsSorted lo [] = Unit
IsSorted lo (w ∷ ws) = (lo ≤ w.start) × (w.start < w.stop) × IsSorted w.start ws

-- Each window starts behind the end of the one before it, and the first behind `lo`.
abbrev pub IsSeparated : ℕ → List Window → Type 0
IsSeparated lo [] = Unit
IsSeparated lo (w ∷ ws) = (lo < w.start) × (w.start < w.stop) × IsSeparated w.stop ws

joined_covers :
    (a b c d p : ℕ) (r : Bool)
    → a < b
    → a ≤ c
    → c ≤ b
    → c < d
    → (leb a p && ltb p (max b d) || r) ≡ (leb a p && ltb p b || (leb c p && ltb p d || r))
joined_covers a b c d p true h k l m = ground arith
joined_covers a b c d p false h k l m = ground arith

pub IsSorted-lower : (lo lo' : ℕ) (ws : List Window) → lo' ≤ lo → IsSorted lo ws → IsSorted lo' ws
IsSorted-lower lo lo' [] h s = tt
IsSorted-lower lo lo' (w ∷ ws) h (x, y, z) = (omega arith, y, z)

pub merge_from-covers :
    (a b : ℕ) (ws : List Window) (p : ℕ)
    → a < b
    → IsSorted a ws
    → covers (merge_from a b ws) p ≡ covers (record { start = a; stop = b } ∷ ws) p
unfolding merge_from
merge_from-covers a b [] p lt s = refl
merge_from-covers a b (w ∷ ws) p lt (le, pos, s) = elim (Bool-cases (leb w.start b)) [
  | inl near ↦
      rw (near, merge_from)
        (merge_from-covers a (max b w.stop) ws p (ground arith) (IsSorted-lower w.start a ws le s)
          ∙ joined_covers a b w.start w.stop p (covers ws p) lt le (leb→le _ _ near) pos)
  | inr far ↦
      rw (far, merge_from)
        (ap (λ c. leb a p && ltb p b || c) (merge_from-covers w.start w.stop ws p pos s))
]

pub merge_from-IsSeparated :
    (lo a b : ℕ) (ws : List Window)
    → lo < a
    → a < b
    → IsSorted a ws
    → IsSeparated lo (merge_from a b ws)
unfolding merge_from
merge_from-IsSeparated lo a b [] h lt s = (h, lt, tt)
merge_from-IsSeparated lo a b (w ∷ ws) h lt (le, pos, s) = elim (Bool-cases (leb w.start b)) [
  | inl near ↦
      rw (near, merge_from)
        (merge_from-IsSeparated lo a (max b w.stop) ws h (ground arith)
          (IsSorted-lower w.start a ws le s))
  | inr far ↦
      rw (far, merge_from)
        (h, lt, merge_from-IsSeparated b w.start w.stop ws (ground (arith, far)) pos s)
]

-- Windows of at least `size` bytes in a text of `n`.
abbrev pub IsWithin : ℕ → ℕ → Window → Type 0
IsWithin size n w = (size ≤ w.stop - w.start) × (w.stop ≤ n)

pub merge_from-IsWithin :
    (size n a b : ℕ) (ws : List Window)
    → IsWithin size n (record { start = a; stop = b })
    → All (IsWithin size n) ws
    → All (IsWithin size n) (merge_from a b ws)
unfolding merge_from
merge_from-IsWithin size n a b [] h t = (h, tt)
merge_from-IsWithin size n a b (w ∷ ws) h (k, t) = elim (Bool-cases (leb w.start b)) [
  | inl near ↦
      rw (near, merge_from) (merge_from-IsWithin size n a (max b w.stop) ws (omega arith) t)
  | inr far ↦ rw (far, merge_from) (h, merge_from-IsWithin size n w.start w.stop ws k t)
]

module _ (window_size step : ℕ) (is_high : Bytes → Bool) (source : Bytes)
    (wide : 0 < window_size) where
  pub high_from-IsSorted :
      (rounds i : ℕ) → IsSorted i (high_from rounds i window_size step is_high source)
  unfolding high_from
  high_from-IsSorted zero i = tt
  high_from-IsSorted (suc rounds) i =
      elim (Bool-cases (is_high (slice i (i + window_size) source))) [
        | inl e ↦
            rw (e, high_from)
              (
                omega arith,
                omega arith,
                IsSorted-lower (i + step) i
                    (high_from rounds (i + step) window_size step is_high source) (omega arith)
                    (high_from-IsSorted rounds (i + step)),
              )
        | inr e ↦
            rw (e, high_from)
              (IsSorted-lower (i + step) i
                (high_from rounds (i + step) window_size step is_high source) (omega arith)
                (high_from-IsSorted rounds (i + step)))
      ]

  pub high_from-IsWithin :
      (rounds i : ℕ)
      → i + rounds * step + window_size ≤ length source + step
      → All
          (IsWithin window_size (length source))
          (high_from rounds i window_size step is_high source)
  unfolding high_from
  high_from-IsWithin zero i h = tt
  high_from-IsWithin (suc rounds) i h =
      let rest = high_from-IsWithin rounds (i + step) (grind arith) in
      let room : i + window_size ≤ length source = grind arith in
      elim (Bool-cases (is_high (slice i (i + window_size) source))) [
        | inl e ↦ rw (e, high_from) ((omega arith, room), rest)
        | inr e ↦ rw (e, high_from) rest
      ]
