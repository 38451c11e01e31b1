-- ===== src/Estate/Coverage.antt =====
-- The coverage of the estate (`get_estate_coverage` of backend/api/store.py).
pub mod Sums
mod Tests
use sih.Prelude.{
  ℕ, ◌+◌, ◌≡◌, Bool, true, false, Option, none, some, String, List, [], ◌∷◌, map, keep, find?,
  length, ltb, if◌then◌else◌,
}
use sih.Prelude.Text.{str_eq}
use sih.Model.Scans.{Scan}
use sih.Model.{Fraction}
use sih.Risk.Factors.{round_to}
use sih.Residue.{CoverageCertificate, get_coverage_certificate}
use sih.Estate.{TargetRecord}

pub record TargetCoverageSummary : Type 0 where
  pub target_id : String
  pub target_name : String
  pub coverage_ratio : Fraction
  pub residue_mass : ℕ
  pub total_mass : ℕ

-- The four sums of the loop.
pub record MassSums : Type 0 where
  pub total : ℕ
  pub attributed : ℕ
  pub excluded : ℕ
  pub residue : ℕ

pub record EstateCoverage : Type 0 where
  pub overall_coverage_ratio : Fraction
  pub sums : MassSums
  pub total_clusters : ℕ
  pub targets : List TargetCoverageSummary

-- The first certificate of the scans.
unfoldable pub first_certificate : List CoverageCertificate → List Scan → Option CoverageCertificate
first_certificate certs [] = none
first_certificate certs (s ∷ scans) =
    let rest = first_certificate certs scans in
    elim (get_coverage_certificate s.id certs) [ none ↦ rest | some c ↦ some c ]

-- `session.get(…, last_scan_id)` if there is a last scan; the empty id is none.
unfoldable pub last_certificate :
    List CoverageCertificate → Option String → Option CoverageCertificate
last_certificate certs none = none
last_certificate certs (some id) = if str_eq id "" then none else get_coverage_certificate id certs

unfoldable pub certificate_of :
    List CoverageCertificate → List Scan → TargetRecord → Option CoverageCertificate
certificate_of certs scans t = elim (last_certificate certs t.last_scan_id) [
  | none ↦ first_certificate certs (keep (λ s. str_eq s.target t.uri) scans)
  | some c ↦ some c
]

-- The additions of one target: a target without a certificate counts as 100 of 100.
unfoldable pub add_target : Option CoverageCertificate → MassSums → MassSums
add_target none m = record m { total = m.total + 100; attributed = m.attributed + 100 }
add_target (some c) m = record {
  total = m.total + c.total_mass;
  attributed = m.attributed + c.attributed_mass;
  excluded = m.excluded + c.excluded_mass;
  residue = m.residue + c.residue_mass;
}

unfoldable pub mass_sums : List (Option CoverageCertificate) → MassSums
mass_sums [] = record { total = 0; attributed = 0; excluded = 0; residue = 0 }
mass_sums (c ∷ cs) = add_target c (mass_sums cs)

unfoldable pub summary_of : TargetRecord → Option CoverageCertificate → TargetCoverageSummary
summary_of t none = record {
  target_id = t.id;
  target_name = t.name;
  coverage_ratio = record { num = 1; den = 1 };
  residue_mass = 0;
  total_mass = 100;
}
summary_of t (some c) = record {
  target_id = t.id;
  target_name = t.name;
  coverage_ratio = round_to 10000 c.coverage_ratio;
  residue_mass = c.residue_mass;
  total_mass = c.total_mass;
}

-- `attributed_mass_sum / total_mass_sum`, before it is rounded to 4 places.
unfoldable pub overall_ratio : MassSums → Fraction
overall_ratio m =
    if ltb 0 m.total
    then record { num = m.attributed; den = m.total }
    else record { num = 1; den = 1 }

-- `clusters` is the number of rows of residue clusters.
unfoldable pub get_estate_coverage :
    List CoverageCertificate → List Scan → ℕ → List TargetRecord → EstateCoverage
get_estate_coverage certs scans clusters targets =
    let m = mass_sums (map (certificate_of certs scans) targets) in
    record {
      overall_coverage_ratio = round_to 10000 (overall_ratio m);
      sums = m;
      total_clusters = clusters;
      targets = map (λ t. summary_of t (certificate_of certs scans t)) targets;
    }
