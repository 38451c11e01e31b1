-- ===== src/Findings/Tests.antt =====
-- Runs of queries, and their theorems at concrete findings.
use sih.Prelude.{suc, ◌≡◌, none, some, List, [], ◌∷◌, keep, length, arith}
use sih.Prelude.Bytes.{Bytes}
use sih.Model.{Finding, critical, high, medium, low}
use sih.Model.Samples.{sample_finding}
use sih.Findings.{Query, band_counts}
use sih.Findings.Filter.{has_band, band_counts_lem}
use sih.Findings.Pages.{walk, walk_lem}

abbrev unscored : Finding
unscored = record sample_finding { id = "f2"; risk = none }

abbrev findings : List Finding
findings = unscored ∷ sample_finding ∷ unscored ∷ []

abbrev by_rsa : Query
by_rsa = record {
  band = none;
  family = some "RSA";
  surface = none;
  source = none;
  min_confidence = some 75;
  needs_review = none;
  q = some "generate";
  sort = some "score";
}

abbrev same : Bytes → Bytes
same s = s

band_counts_run :
    let c = band_counts findings in
    (c.critical_count ≡ length (keep (has_band critical) findings))
    × (c.high_count ≡ length (keep (has_band high) findings))
    × (c.medium_count ≡ length (keep (has_band medium) findings))
    × (c.low_count ≡ length (keep (has_band low) findings))
band_counts_run = band_counts_lem findings

walk_lem_example : walk (suc (length findings)) none 2 findings ≡ findings
walk_lem_example = walk_lem 2 findings (omega arith)
