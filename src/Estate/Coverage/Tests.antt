-- ===== src/Estate/Coverage/Tests.antt =====
-- Runs of the coverage of the estate.
use sih.Prelude.{◌*◌, ◌<◌, refl, none, some, true, [], ◌∷◌, arith}
use sih.Residue.{CoverageCertificate}
use sih.Estate.{TargetRecord, repo}
use sih.Estate.Coverage.{add_target, mass_sums, overall_ratio, get_estate_coverage}
use sih.Estate.Coverage.Sums.{IsBalanced, get_estate_coverage_conserves, unscanned_target_raises}

abbrev certificate : CoverageCertificate
certificate = record {
  scan_id = "s1";
  artifact_count = 1;
  total_mass = 40;
  attributed_mass = 10;
  excluded_mass = 5;
  residue_mass = 25;
  coverage_ratio = record { num = 10; den = 40 };
  residue_cluster_count = 2;
  computed_at = 5;
}

abbrev scanned : TargetRecord
scanned = record {
  id = "t1";
  name = "web";
  kind = repo;
  uri = "/srv/web";
  policy_id = "p";
  schedule = "@daily";
  enabled = true;
  last_scan_id = some "s1";
  last_scan_at = some 5;
  created_at = 1;
}

get_estate_coverage_conserves_run :
    IsBalanced (get_estate_coverage (certificate ∷ []) [] 2 (scanned ∷ [])).sums
get_estate_coverage_conserves_run =
    get_estate_coverage_conserves (certificate ∷ []) [] 2 (scanned ∷ []) (refl, tt)

unscanned_target_raises_run :
    (overall_ratio (mass_sums (some certificate ∷ []))).num
      * (overall_ratio (mass_sums (none ∷ some certificate ∷ []))).den
    < (overall_ratio (mass_sums (none ∷ some certificate ∷ []))).num
      * (overall_ratio (mass_sums (some certificate ∷ []))).den
unfolding mass_sums add_target
unscanned_target_raises_run = unscanned_target_raises (some certificate ∷ []) (omega arith)
