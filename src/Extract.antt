-- ===== src/Extract.antt =====
-- The extractors of crypto signals (backend/engine/extract): what they share, and the two that look
-- at windows of bytes (entropy.py, arx.py).
pub mod Merge
pub mod Windows
pub mod Tables
pub mod Patterns
pub mod Source
pub mod Framing
pub mod All
pub mod Sound
mod Tests
use sih.Prelude.{
  ℕ, zero, suc, ◌+◌, ◌≤◌, ◌≡◌, ◌-◌, ◌*◌, ◌/◌, max, Bool, true, false, not, ◌&&◌, ◌||◌, some, String,
  List, [], ◌∷◌, ◌++◌, map, keep, any, sum_by, length, ltb, leb, ◌==◌, if◌then◌else◌,
}
use sih.Prelude.Text.{codes}
use sih.Prelude.Bytes.{Bytes, slice, starts_with}
use sih.Attribution.{Span, SpanKind, byte}
use mathlib.Core.List.{reverse}

-- `path.endswith(suffixes)`
unfoldable pub ends_with : List Bytes → Bytes → Bool
ends_with suffixes path = any (λ s. starts_with (reverse s) (reverse path)) suffixes

-- A `Span` of an extractor, whose magnitude is its length.
abbrev pub span_of : String → SpanKind → ℕ → ℕ → String → String → Span
span_of artifact_hash kind start stop rule signal = record {
  artifact_hash = artifact_hash;
  kind = kind;
  start = start;
  stop = stop;
  producing_rule = rule;
  coarse = false;
  signal_type = some signal;
  magnitude = stop - start;
}

-- A span of an artifact of `n` bytes, with its length as the magnitude.
abbrev pub IsSpanOf : String → ℕ → Span → Type 0
IsSpanOf artifact_hash n s =
    (s.artifact_hash ≡ artifact_hash) × (s.start + s.magnitude ≡ s.stop) × (s.stop ≤ n)

-- `any(s.start <= start and end <= s.end for s in spans)`
abbrev pub is_covered : List Span → ℕ → ℕ → Bool
is_covered spans start stop = any (λ s. leb s.start start && leb stop s.stop) spans

pub record Window : Type 0 where
  pub start : ℕ
  pub stop : ℕ

-- The windows that pass a test, of `rounds` windows from `i` on.
unfoldable pub high_from : ℕ → ℕ → ℕ → ℕ → (Bytes → Bool) → Bytes → List Window
high_from zero i window_size step is_high source = []
high_from (suc rounds) i window_size step is_high source =
    let rest = high_from rounds (i + step) window_size step is_high source in
    if is_high (slice i (i + window_size) source)
    then record { start = i; stop = i + window_size } ∷ rest
    else rest

-- `for i in range(0, n - window_size + 1, step)`, where n >= window_size.
unfoldable pub high_windows : ℕ → ℕ → (Bytes → Bool) → Bytes → List Window
unfolding high_from
high_windows window_size step is_high source =
    high_from ((length source - window_size) / step + 1) 0 window_size step is_high source

-- The loop that merges windows into the current one, which overlap it or adjoin it.
unfoldable pub merge_from : ℕ → ℕ → List Window → List Window
merge_from cur_start cur_end [] = record { start = cur_start; stop = cur_end } ∷ []
merge_from cur_start cur_end (w ∷ ws) =
    let joined = merge_from cur_start (max cur_end w.stop) ws in
    let apart = merge_from w.start w.stop ws in
    if leb w.start cur_end then joined else record { start = cur_start; stop = cur_end } ∷ apart

unfoldable pub merge_windows : List Window → List Window
merge_windows [] = []
merge_windows (w ∷ ws) = merge_from w.start w.stop ws

unfoldable pub count_of : ℕ → Bytes → ℕ
count_of b [] = 0
count_of b (c ∷ s) = (if b == c then 1 else 0) + count_of b s

-- The values of a sequence, each once.
unfoldable pub distinct : Bytes → Bytes
distinct [] = []
distinct (c ∷ s) = let rest = distinct s in if any (◌==◌ c) s then rest else c ∷ rest

abbrev entropy_threshold : Bytes → ℕ
entropy_threshold path =
    if ends_with
      (codes ".py"
        ∷ codes ".go"
        ∷ codes ".java"
        ∷ codes ".c"
        ∷ codes ".h"
        ∷ codes ".cpp"
        ∷ codes ".js"
        ∷ codes ".ts"
        ∷ codes ".txt"
        ∷ codes ".json"
        ∷ [])
      path
    then 6800000
    else 7400000

abbrev pub entropy_window : Bytes → ℕ
entropy_window source = if leb 256 (length source) then 128 else 64

-- `minus_log2 count n` is -log2(count / n) in millionths, a parameter for the floating point.
module _ (minus_log2 : ℕ → ℕ → ℕ) where
  -- Whether `shannon_entropy(data) >= threshold`, with both sides multiplied by the length; the
  -- threshold is in millionths.
  unfoldable pub has_entropy : ℕ → Bytes → Bool
  unfolding count_of distinct
  has_entropy threshold content = leb (threshold * length content) (
      sum_by (λ b. count_of b content * minus_log2 (count_of b content) (length content))
        (distinct content))

  abbrev pub entropy_windows : Bytes → Bytes → List Window
  entropy_windows source path =
      high_windows (entropy_window source) 32 (has_entropy (entropy_threshold path)) source

  unfoldable pub extract_entropy : Bytes → Bytes → String → List Span
  extract_entropy source path artifact_hash =
      if ltb (length source) 64
      then []
      else map
          (λ w.
            span_of artifact_hash byte w.start w.stop "extract.entropy.sustained_high"
              "entropy.high_density")
          (keep (λ w. leb 64 (w.stop - w.start)) (merge_windows (entropy_windows source path)))

abbrev pub arx_opcodes : List ℕ
arx_opcodes = 0x31 ∷ 0x33 ∷ 0x35 ∷ 0x01 ∷ 0x03 ∷ 0x05 ∷ 0xC1 ∷ 0xD1 ∷ 0xD3 ∷ []

-- `arx_count / window_size >= 0.35` for a window of 64 bytes
unfoldable pub has_arx : Bytes → Bool
has_arx window = leb (35 * 64) (100 * length (keep (λ b. any (◌==◌ b) arx_opcodes) window))

-- The scan of a binary in `extract_arx`.
unfoldable pub arx_binary : Bytes → String → List Span
unfolding has_arx
arx_binary source artifact_hash =
    if ltb (length source) 64
    then []
    else map
        (λ w.
          span_of artifact_hash byte w.start w.stop "extract.arx.binary_opcode_density"
            "arx.binary_opcode_density")
        (merge_windows (high_windows 64 16 has_arx source))
