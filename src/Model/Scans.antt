-- ===== src/Model/Scans.antt =====
-- Scans and their snapshots (backend/api/models.py).
use sih.Prelude.{ℕ, Option, String}
use sih.Model.Findings.{Fraction}

pub data ScanStatus : Type 0 where
  queued ingesting scanning scoring done failed : ScanStatus

pub record BandCounts : Type 0 where
  pub critical_count : ℕ
  pub high_count : ℕ
  pub medium_count : ℕ
  pub low_count : ℕ

abbrev pub no_bands : BandCounts
no_bands = record { critical_count = 0; high_count = 0; medium_count = 0; low_count = 0 }

pub record ScanStats : Type 0 where
  pub files : ℕ
  pub bytes : ℕ
  pub seconds : Fraction
  pub mb_per_sec : Fraction
  pub errors : ℕ
  pub skipped_prefilter : ℕ

abbrev pub no_stats : ScanStats
no_stats = record {
  files = 0;
  bytes = 0;
  seconds = record { num = 0; den = 1 };
  mb_per_sec = record { num = 0; den = 1 };
  errors = 0;
  skipped_prefilter = 0;
}

-- `Scan`, which `scan_to_record` keeps field by field.
pub record Scan : Type 0 where
  pub id : String
  pub target : String
  pub status : ScanStatus
  pub stats : Option ScanStats
  pub bands : BandCounts
  pub policy_id : String
  pub crqc_years : ℕ
  pub started_at : ℕ
  pub finished_at : Option ℕ
  pub bundle_hash : Option String

pub record ScanSnapshot : Type 0 where
  pub id : String
  pub target_id : String
  pub scan_id : String
  pub taken_at : ℕ
  pub bands : BandCounts
  pub total_findings : ℕ
  pub stats : ScanStats
  pub coverage_ratio : Option Fraction
  pub residue_mass : Option ℕ
