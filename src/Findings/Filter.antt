-- ===== src/Findings/Filter.antt =====
-- The result of a query (backend/api/filtering.py, `filter_findings`) and the counts of bands.
use sih.Prelude.{
  ℕ, ◌+◌, ◌≡◌, refl, Bool, false, Option, none, some, List, [], ◌∷◌, keep, length, Perm, arith,
}
use sih.Prelude.Bytes.{Bytes}
use sih.Prelude.Sort.{IsChain}
use sih.Model.Scans.{BandCounts}
use sih.Model.{Finding, RiskBand, band_eq, band_rank, critical, high, medium, low}
use sih.Findings.{SortKey, may_precede, count_one, band_counts}
use mathlib.Core.List.Perm

-- In the order that a key asks for; without one, any order is.
abbrev pub IsOrdered : Option SortKey → List Finding → Type 0
IsOrdered none fs = Unit
IsOrdered (some k) fs = IsChain (may_precede k) fs

abbrev pub total_of : BandCounts → ℕ
total_of c = c.critical_count + c.high_count + c.medium_count + c.low_count

abbrev pub has_band : RiskBand → Finding → Bool
has_band b f = elim f.risk [ none ↦ false | some r ↦ band_eq r.band b ]

-- Each count is the number of the findings with a risk of that band.
pub band_counts_lem :
    (fs : List Finding)
    → let c = band_counts fs in
      (c.critical_count ≡ length (keep (has_band critical) fs))
      × (c.high_count ≡ length (keep (has_band high) fs))
      × (c.medium_count ≡ length (keep (has_band medium) fs))
      × (c.low_count ≡ length (keep (has_band low) fs))
unfolding band_counts count_one band_eq band_rank
band_counts_lem [] = (refl, refl, refl, refl)
band_counts_lem (f ∷ fs) =
    let (a, b, c, d) = band_counts_lem fs in
    (ground arith, ground arith, ground arith, ground arith)
