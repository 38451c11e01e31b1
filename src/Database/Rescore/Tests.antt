-- ===== src/Database/Rescore/Tests.antt =====
-- Runs of the rescoring (backend/api/store.py), and its theorems at concrete rows.
use sih.Prelude.{
  ℕ, ◌≡◌, ◌≢◌, refl, true, false, none, some, Option, List, [], ◌∷◌, arith, ◌+◌, length,
}
use sih.Prelude.Int.{pos, negsuc, ◌+ℤ◌, ◌-ℤ◌, ◌*ℤ◌}
use sih.Prelude.Text.{str_eq}
use sih.Model.{
  Detection, Policy, Context, internal, business_medium, rsa, keygen, source, critical, low, Risk,
  at_least, Finding, algorithm, ast, open_triage, private_key_floor, band_eq, band_rank,
}
use sih.Risk.{rescore, compute_urgency, urgency_of, clamp, compute_score, band_for_score, scored_at}
use sih.Risk.Factors.{
  derive_risk, formula_result, resolve_vulnerability, matched_context, forced_private_key,
  function_criticality, exposure_weight, criticality_weight,
}
use sih.Risk.Families.{vulnerability}
use sih.Database.{FindingRecord, finding_to_record}
use sih.Database.Rescore.{
  is_eligible, is_changed, rescored, update_row, new_score, new_u, new_band, score_moved,
  band_moved, apart, Tables, count_bands, update_scan, rescore_rows,
}
use sih.Prelude.Bytes.{Bytes}
use sih.Prelude.Text.{codes}
use sih.Model.Samples.{sample_scan}
use sih.Model.Scans.{BandCounts}
use sih.Audit.{intact, log_audit, verify_audit_log_integrity}
use sih.Audit.Toy.{toy, toy_width}
use sih.Database.Rescore.Audited.{
  Store, rescore_entry, rescore_scan_findings, rescore_scan_findings-intact,
}
use sih.Database.Rescore.Effect.{
  IsRescored, update_row-IsRescored, update_row_zero, rescore_rows_twice,
}
use sih.Database.Rescore.Floor.{unfloored, rescore_drops_floor}

abbrev key : Detection
key = record {
  surface = source;
  family = some rsa;
  display_name = "RSA-1024";
  function = keygen;
  path = "core/keys.py";
  line = some 7;
  symbol = "generate";
  confidence = 90;
  key_size = some 1024;
  mode = none;
  curve = none;
  underlying_hash_family = none;
}

abbrev inner : Context
inner = record {
  exposure = internal;
  criticality = business_medium;
  shelf_life_years = pos 5;
  migration_years = pos 2;
}

abbrev policy : Policy
policy = record { id = "p"; name = "Default"; crqc_years = 10; default = inner; contexts = [] }

-- The risk of the key: 100 * 1.0 * 0.9 * 0.35 * 0.6 * 0.6 = 11.34, lifted to 90.
abbrev risk : Risk
risk = record {
  score = record { num = 9000; den = 100 };
  band = critical;
  v = 100;
  f = 90;
  u = record { num = 3500; den = 10000 };
  e = 60;
  k = 60;
  x = pos 5;
  y = pos 2;
  z = 10;
  mosca_margin = negsuc 2;
  reason = private_key_floor;
  classically_broken = false;
  hndl = true;
  needs_review = false;
}

risk_run : derive_risk str_eq key policy ≡ some risk
unfolding derive_risk formula_result rescore compute_urgency urgency_of clamp ◌+ℤ◌ ◌-ℤ◌ ◌*ℤ◌
    scored_at compute_score resolve_vulnerability vulnerability matched_context
risk_run = refl

abbrev finding : Finding
finding = record {
  id = "f1";
  kind = algorithm;
  surface = source;
  family = some rsa;
  display_name = "RSA-1024";
  key_size = some 1024;
  mode = none;
  curve = none;
  function = keygen;
  location = record { path = "core/keys.py"; line = some 7; offset = none; layer = none };
  symbol = "generate";
  snippet = "generate(1024)";
  source = ast;
  confidence = 90;
  risk = some risk;
  recommendation = none;
  triage = record { status = open_triage; note = none };
  negotiated = none;
}

abbrev row : FindingRecord
row = finding_to_record finding "s1"

row_eligible : is_eligible "s1" row ≡ true
unfolding is_eligible finding_to_record
row_eligible = refl

update_row-IsRescored_example : IsRescored 10 row (update_row "s1" 10 row)
unfolding finding_to_record
update_row-IsRescored_example =
    update_row-IsRescored "s1" 10 row (record { num = 9000; den = 100 }) critical (omega arith)
      row_eligible refl refl

critical_ne_low : critical ≢ low
critical_ne_low e = cc

update_row_zero_run :
    ((update_row "s1" 0 row).risk_score ≡ none) × ((update_row "s1" 0 row).risk_band ≡ some low)
unfolding finding_to_record
update_row_zero_run =
    update_row_zero "s1" row (record { num = 9000; den = 100 }) critical row_eligible refl refl
      critical_ne_low

rescore_drops_floor_example :
    (at_least risk.score 90 ≡ true)
    × ((update_row "s1" 10 (finding_to_record finding "s1")).risk_score
        ≡ some (unfloored str_eq key policy).score)
unfolding resolve_vulnerability vulnerability forced_private_key matched_context scored_at
    compute_score urgency_of clamp ◌+ℤ◌ ◌-ℤ◌ ◌*ℤ◌ function_criticality exposure_weight
    criticality_weight
rescore_drops_floor_example =
    rescore_drops_floor str_eq key policy finding risk "s1" risk_run refl (omega arith) refl refl

abbrev tables : Tables
tables = record { scans = sample_scan ∷ []; findings = row ∷ [] }

abbrev lower : FindingRecord
lower = update_row "s1" 12 row

abbrev once : BandCounts × List FindingRecord × Tables
once = (
  count_bands "s1" (lower ∷ []),
  rescored 12 row ∷ [],
  record {
    scans = update_scan "s1" (count_bands "s1" (lower ∷ [])) (some 12) (sample_scan) ∷ [];
    findings = lower ∷ [];
  },
)

rescore_run : rescore_rows "s1" (some 12) tables ≡ some once
unfolding rescore_rows is_eligible is_changed finding_to_record score_moved band_moved new_score
    new_u new_band apart compute_score urgency_of clamp ◌+ℤ◌ ◌-ℤ◌ ◌*ℤ◌ band_for_score band_eq
    band_rank
rescore_run = refl

rescore_rows_twice_run : rescore_rows "s1" (some 12) once.2 ≡ some (once.0, [], once.2)
rescore_rows_twice_run = rescore_rows_twice "s1" (some 12) tables once rescore_run

abbrev store : Store toy
store = record { tables = tables; log = [] }

abbrev rescore_detail : Option ℕ → ℕ → ℕ → Bytes
rescore_detail none rescored changed = rescored ∷ changed ∷ []
rescore_detail (some z) rescored changed = z ∷ rescored ∷ changed ∷ []

abbrev store_after : Store toy
store_after = record {
  tables = once.2;
  log =
      log_audit toy (codes "ops") (rescore_entry toy rescore_detail "s1" (some 12) once.0 once.1)
        [];
}

empty_log_intact : verify_audit_log_integrity toy [] ≡ intact
unfolding verify_audit_log_integrity
empty_log_intact = refl

audited_run :
    rescore_scan_findings toy rescore_detail (codes "ops") "s1" (some 12) store
    ≡ some (once.0, once.1, store_after)
unfolding rescore_scan_findings
audited_run = rw (rescore_run, rescore_scan_findings) refl

rescore_scan_findings-intact_run :
    (verify_audit_log_integrity toy store_after.log ≡ intact)
    × (length store_after.log ≡ length store.log + 1)
    × (rescore_rows "s1" (some 12) store.tables ≡ some (once.0, once.1, store_after.tables))
rescore_scan_findings-intact_run =
    rescore_scan_findings-intact toy rescore_detail toy_width (codes "ops") "s1" (some 12) store
      once.0 once.1 store_after empty_log_intact audited_run
