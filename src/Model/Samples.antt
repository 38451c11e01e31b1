-- ===== src/Model/Samples.antt =====
-- A finding, a scan and a snapshot to run the models with.
use sih.Prelude.{true, false, none, some}
use sih.Prelude.Int.{pos, negsuc}
use sih.Model.Enums.{source, rsa, keygen, ast, algorithm, open_triage, critical}
use sih.Model.Scans.{Scan, ScanSnapshot, done, no_stats}
use sih.Model.Findings.{Risk, Finding, private_key_floor}

-- The risk of the key: 100 * 1.0 * 0.9 * 0.35 * 0.6 * 0.6 = 11.34, lifted to 90.
abbrev pub sample_risk : Risk
sample_risk = record {
  score = record { num = 9000; den = 100 };
  band = critical;
  v = 100;
  f = 90;
  u = record { num = 3500; den = 10000 };
  e = 60;
  k = 60;
  x = pos 5;
  y = pos 2;
  z = 10;
  mosca_margin = negsuc 2;
  reason = private_key_floor;
  classically_broken = false;
  hndl = true;
  needs_review = false;
}

abbrev pub sample_finding : Finding
sample_finding = record {
  id = "f1";
  kind = algorithm;
  surface = source;
  family = some rsa;
  display_name = "RSA-1024";
  key_size = some 1024;
  mode = none;
  curve = none;
  function = keygen;
  location = record { path = "core/keys.py"; line = some 7; offset = none; layer = none };
  symbol = "generate";
  snippet = "generate(1024)";
  source = ast;
  confidence = 90;
  risk = some sample_risk;
  recommendation = none;
  triage = record { status = open_triage; note = none };
  negotiated = none;
}

abbrev pub sample_scan : Scan
sample_scan = record {
  id = "s1";
  target = "srv";
  status = done;
  stats = some no_stats;
  bands = record { critical_count = 1; high_count = 0; medium_count = 0; low_count = 0 };
  policy_id = "policy_default";
  crqc_years = 10;
  started_at = 1;
  finished_at = some 1;
  bundle_hash = none;
}

abbrev pub sample_snapshot : ScanSnapshot
sample_snapshot = record {
  id = "a";
  target_id = "t";
  scan_id = "s1";
  taken_at = 1;
  bands = sample_scan.bands;
  total_findings = 1;
  stats = no_stats;
  coverage_ratio = none;
  residue_mass = none;
}
