-- ===== src/Extract/Tests.antt =====
-- Runs of the extractors.
use sih.Prelude.{
  ℕ, zero, suc, ◌+◌, ◌≤◌, ◌≡◌, ◌≢◌, refl, Bool, true, false, Option, none, some, String, List, [],
  ◌∷◌, map, All, length, arith,
}
use sih.Prelude.Text.{codes}
use sih.Prelude.Bytes.{Bytes, slice, is_str_space}
use sih.Prelude.Sort.{Pairwise, IsChain}
use sih.Prelude.Regex.{Match, finditer, matches}
use sih.Attribution.{Span}
use sih.Extract.{
  IsSpanOf, extract_entropy, entropy_window, entropy_windows, merge_windows, merge_from,
}
use sih.Extract.Merge.{covers}
use sih.Extract.Windows.{holds, IsApart, IsMeasured, extract_entropy_lem}
use sih.Extract.Tables.{bijections, is_bijection}
use sih.Extract.Tables.Bijections.{IsTiled, bijections_lem}
use sih.Extract.Patterns.Literals.{key_length, string_literal}
use sih.Extract.Patterns.Loops.{arx_rotate, montgomery}
use sih.Extract.All.{span_before, extract_all}
use sih.Extract.Sound.{extract_all_lem}

-- The positions of the matches.
abbrev places : List Match → List (ℕ × ℕ)
places = map (λ m. (m.start, m.stop))

-- The ends of their groups.
abbrev groups : List Match → List (ℕ × ℕ)
groups = map (λ m. (m.group_start, m.group_stop))

key_length_runs : places (finditer key_length (codes "x; KEY_SIZE = 2048)")) ≡ (3, 18) ∷ []
unfolding finditer matches key_length is_str_space
key_length_runs = refl

arx_rotate_runs : places (finditer arx_rotate (codes "a=(x << 3)|(x>>(32-3));")) ≡ (2, 22) ∷ []
unfolding finditer matches arx_rotate is_str_space
arx_rotate_runs = refl

montgomery_runs : places (finditer montgomery (codes "pow_mod(ModExp (")) ≡ (0, 8) ∷ (8, 16) ∷ []
unfolding finditer matches montgomery is_str_space
montgomery_runs = refl

string_literal_runs :
    groups (finditer string_literal (codes "f('it', \"a\\\"b\")")) ≡ (3, 5) ∷ (9, 13) ∷ []
unfolding finditer matches string_literal is_str_space
string_literal_runs = refl

merge_runs :
    merge_windows (
      record { start = 0; stop = 64 }
      ∷ record { start = 32; stop = 96 }
      ∷ record { start = 128; stop = 192 }
      ∷ [])
    ≡ record { start = 0; stop = 96 } ∷ record { start = 128; stop = 192 } ∷ []
unfolding merge_windows merge_from
merge_runs = refl

-- The bytes from `n - 1` down to 0.
abbrev below : ℕ → Bytes
below zero = []
below (suc n) = n ∷ below n

-- A stand-in for -log2(count / n) in millionths: its value at 1 / 64.
abbrev coarse_log : ℕ → ℕ → ℕ
coarse_log count n = 6000000

extract_entropy_lem_example :
    ((p : ℕ)
      → holds (extract_entropy coarse_log (below 64) (codes "key.bin") "h") p
        ≡ covers (entropy_windows coarse_log (below 64) (codes "key.bin")) p)
    × IsApart (extract_entropy coarse_log (below 64) (codes "key.bin") "h")
    × All
        (IsMeasured "h" (entropy_window (below 64)) (length (below 64)))
        (extract_entropy coarse_log (below 64) (codes "key.bin") "h")
extract_entropy_lem_example =
    extract_entropy_lem coarse_log (below 64) (codes "key.bin") "h" (omega arith)

bijections_lem_example :
    (spans : List Span) × (bijections (suc (length (below 256))) 0 (below 256) "h" ≡ some spans)
    × IsTiled "h" 0 (length (below 256)) spans
    × All (λ s. Pairwise ◌≢◌ (slice s.start s.stop (below 256))) spans
    × ((j : ℕ)
        → j + 256 ≤ length (below 256)
        → is_bijection (slice j (j + 256) (below 256)) ≡ true
        → holds spans j ≡ true)
bijections_lem_example = bijections_lem (below 256) "h" (omega arith)

abbrev no_base64 : Bytes → Option Bytes
no_base64 s = none

abbrev any_order : String → String → Bool
any_order a b = true

any_order_total : (a b : String) → any_order a b ≡ false → any_order b a ≡ true
any_order_total a b h = refl

extract_all_lem_example :
    (spans : List Span) × (extract_all coarse_log no_base64 any_order
        (below 64)
        (codes "key.bin")
        "h"
      ≡ some spans)
    × All (IsSpanOf "h" (length (below 64))) spans
    × IsChain (span_before any_order) spans
extract_all_lem_example =
    extract_all_lem coarse_log no_base64 (below 64) (codes "key.bin") "h" any_order any_order_total
