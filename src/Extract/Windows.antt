-- ===== src/Extract/Windows.antt =====
-- The spans of the extractors that look at windows.
use sih.Prelude.{
  ℕ, ◌+◌, ◌-◌, ◌*◌, ◌/◌, ◌≤◌, ◌<◌, max, ◌≡◌, refl, ◌∙◌, ap, Bool, true, false, ◌&&◌, ◌||◌, String,
  List, [], ◌∷◌, map, keep, any, length, ltb, leb, arith, All, Bool-cases, inl, inr,
}
use sih.Prelude.Bytes.{Bytes}
use sih.Attribution.{Span, SpanKind, byte}
use sih.Extract.{
  span_of, IsSpanOf, Window, high_windows, merge_from, merge_windows, extract_entropy,
  entropy_windows, entropy_window, arx_binary, has_arx,
}
use sih.Extract.Merge.{
  covers, IsSorted, IsSeparated, IsWithin, IsSorted-lower, merge_from-covers,
  merge_from-IsSeparated, merge_from-IsWithin, high_from-IsSorted, high_from-IsWithin,
}

-- Whether a span holds the position.
abbrev pub holds : List Span → ℕ → Bool
holds spans p = any (λ s. leb s.start p && ltb p s.stop) spans

-- No span is empty, and each starts behind the end of the one before it.
abbrev pub IsBehind : ℕ → List Span → Type 0
IsBehind lo [] = Unit
IsBehind lo (s ∷ ss) = (lo < s.start) × (s.start < s.stop) × IsBehind s.stop ss

abbrev pub IsApart : List Span → Type 0
IsApart [] = Unit
IsApart (s ∷ ss) = (s.start < s.stop) × IsBehind s.stop ss

-- At least `size` bytes of a text of `n`, with the length as the magnitude.
abbrev pub IsMeasured : String → ℕ → ℕ → Span → Type 0
IsMeasured artifact_hash size n s = (size ≤ s.magnitude) × IsSpanOf artifact_hash n s

module _ (artifact_hash : String) (kind : SpanKind) (rule signal : String) where
  abbrev span_at : Window → Span
  span_at w = span_of artifact_hash kind w.start w.stop rule signal

  holds-map : (ws : List Window) (p : ℕ) → holds (map span_at ws) p ≡ covers ws p
  holds-map [] p = refl
  holds-map (w ∷ ws) p = ap (λ c. leb w.start p && ltb p w.stop || c) (holds-map ws p)

  IsBehind-map : (lo : ℕ) (ws : List Window) → IsSeparated lo ws → IsBehind lo (map span_at ws)
  IsBehind-map lo [] s = tt
  IsBehind-map lo (w ∷ ws) (h, lt, s) = (h, lt, IsBehind-map w.stop ws s)

  IsApart-merge_from :
      (a b : ℕ) (ws : List Window)
      → a < b
      → IsSorted a ws
      → IsApart (map span_at (merge_from a b ws))
  unfolding merge_from
  IsApart-merge_from a b [] lt s = (lt, tt)
  IsApart-merge_from a b (w ∷ ws) lt (le, pos, s) = elim (Bool-cases (leb w.start b)) [
    | inl near ↦
        rw (near, merge_from)
          (IsApart-merge_from a (max b w.stop) ws (ground arith) (IsSorted-lower w.start a ws le s))
    | inr far ↦
        rw (far, merge_from)
          (
            lt,
            IsBehind-map b (merge_from w.start w.stop ws)
                (merge_from-IsSeparated b w.start w.stop ws (ground (arith, far)) pos s),
          )
  ]

  IsMeasured-map :
      (size n : ℕ) (ws : List Window)
      → 0 < size
      → All (IsWithin size n) ws
      → All (IsMeasured artifact_hash size n) (map span_at ws)
  IsMeasured-map size n [] z a = tt
  IsMeasured-map size n (w ∷ ws) z ((x, y), a) =
      ((x, (refl, omega arith, y)), IsMeasured-map size n ws z a)

  -- The spans that an extractor makes of the windows of a text that pass its test.
  module _ (size step : ℕ) (is_high : Bytes → Bool) (source : Bytes) (wide : 0 < size)
      (long : size ≤ length source) (stepped : 0 < step) where
    abbrev IsMerged : List Window → List Window → Type 0
    IsMerged ws merged =
        ((p : ℕ) → holds (map span_at merged) p ≡ covers ws p)
        × IsApart (map span_at merged)
        × All (IsMeasured artifact_hash size (length source)) (map span_at merged)

    merge_windows-IsMerged :
        (ws : List Window)
        → IsSorted 0 ws
        → All (IsWithin size (length source)) ws
        → IsMerged ws (merge_windows ws)
    unfolding merge_windows
    merge_windows-IsMerged [] s a = ((λ p. refl), tt, tt)
    merge_windows-IsMerged (w ∷ ws) (h, lt, s) (b, a) = (
      (λ p.
          holds-map (merge_from w.start w.stop ws) p ∙ merge_from-covers w.start w.stop ws p lt s),
      IsApart-merge_from w.start w.stop ws lt s,
      IsMeasured-map size (length source) (merge_from w.start w.stop ws) wide
          (merge_from-IsWithin size (length source) w.start w.stop ws b a),
    )

    pub high_windows-IsMerged :
        IsMerged
          (high_windows size step is_high source)
          (merge_windows (high_windows size step is_high source))
    unfolding high_windows
    high_windows-IsMerged =
        let rounds = (length source - size) / step + 1 in
        let fits : 0 + rounds * step + size ≤ length source + step = grind arith in
        merge_windows-IsMerged (high_windows size step is_high source)
          (high_from-IsSorted size step is_high source wide rounds 0)
          (high_from-IsWithin size step is_high source wide rounds 0 fits)

merge_windows-wide :
    (size n : ℕ) (ws : List Window)
    → 64 ≤ size
    → All (IsWithin size n) ws
    → keep (λ w. leb 64 (w.stop - w.start)) ws ≡ ws
merge_windows-wide size n [] h a = refl
merge_windows-wide size n (w ∷ ws) h ((x, y), a) =
    let e : leb 64 (w.stop - w.start) ≡ true = ground arith in
    rw (e, merge_windows-wide size n ws h a) refl

merge_windows-IsWithin :
    (size n : ℕ) (ws : List Window)
    → All (IsWithin size n) ws
    → All (IsWithin size n) (merge_windows ws)
unfolding merge_windows
merge_windows-IsWithin size n [] a = tt
merge_windows-IsWithin size n (w ∷ ws) (h, a) = merge_from-IsWithin size n w.start w.stop ws h a

high_windows-IsWithin :
    (size step : ℕ) (is_high : Bytes → Bool) (source : Bytes)
    → 0 < size
    → size ≤ length source
    → 0 < step
    → All (IsWithin size (length source)) (high_windows size step is_high source)
unfolding high_windows
high_windows-IsWithin size step is_high source wide long stepped =
    high_from-IsWithin size step is_high source wide ((length source - size) / step + 1) 0
      (grind arith)

-- In an artifact of 64 bytes or more, a byte is in a span of the entropy extractor exactly when it
-- is in a window that reaches the threshold; the spans are in order with gaps between them, and
-- each is at least a window long, lies in the artifact, and has its length as its magnitude.
pub extract_entropy_lem :
    (minus_log2 : ℕ → ℕ → ℕ) (source path : Bytes) (artifact_hash : String)
    → 64 ≤ length source
    → ((p : ℕ)
        → holds (extract_entropy minus_log2 source path artifact_hash) p
          ≡ covers (entropy_windows minus_log2 source path) p)
      × IsApart (extract_entropy minus_log2 source path artifact_hash)
      × All
          (IsMeasured artifact_hash (entropy_window source) (length source))
          (extract_entropy minus_log2 source path artifact_hash)
unfolding extract_entropy
extract_entropy_lem minus_log2 source path artifact_hash long =
    let big : ltb (length source) 64 ≡ false = ground arith in
    let ws = entropy_windows minus_log2 source path in
    rw
      (
        big,
        merge_windows-wide (entropy_window source) (length source) (merge_windows ws) wide (
            merge_windows-IsWithin (entropy_window source) (length source) ws (
              high_windows-IsWithin (entropy_window source) 32 _ source (omega (arith, wide)) fits
                (omega arith))),
      )
      (high_windows-IsMerged artifact_hash byte "extract.entropy.sustained_high"
        "entropy.high_density" (entropy_window source) 32 _ source (omega (arith, wide)) fits
        (omega arith))
  where
    wide : 64 ≤ entropy_window source
    wide = ground arith

    fits : entropy_window source ≤ length source
    fits = ground (arith, long)

-- The same for the windows of a binary with many opcodes that add, rotate or xor.
pub arx_binary_lem :
    (source : Bytes) (artifact_hash : String)
    → 64 ≤ length source
    → ((p : ℕ)
        → holds (arx_binary source artifact_hash) p ≡ covers (high_windows 64 16 has_arx source) p)
      × IsApart (arx_binary source artifact_hash)
      × All (IsMeasured artifact_hash 64 (length source)) (arx_binary source artifact_hash)
unfolding arx_binary
arx_binary_lem source artifact_hash long =
    let big : ltb (length source) 64 ≡ false = ground arith in
    rw big (
      high_windows-IsMerged artifact_hash byte "extract.arx.binary_opcode_density"
        "arx.binary_opcode_density" 64 16 has_arx source (omega arith) long (omega arith))
