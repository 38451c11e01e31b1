-- ===== src/Audit/Tests.antt =====
-- Runs of the audit log (backend/api/db.py), and its theorems at concrete logs.
use sih.Prelude.{◌≡◌, refl, ◌≢◌, ◌⊎◌, none, some, List, [], ◌∷◌, ◌++◌, length, false}
use sih.Prelude.Bytes.{Bytes, bytes_eq, eq→bytes_eq}
use sih.Prelude.Text.{codes}
use sih.Audit.{
  Record, Entry, intact, tampered, genesis, log_audit, compute_audit_record_hash,
  verify_audit_log_integrity, last_hash, audit_row,
}
use sih.Audit.Chain.{verify_audit_log_integrity-log_audit, log_audit-verify_audit_log_integrity}
use sih.Audit.Toy.{toy, toy_width}
use sih.Audit.Tamper.{
  IsEdit, Collision, payloads, intact_logs_agree, edit_is_reported,
  verify_audit_log_integrity-prefix, verify_audit_log_integrity-shift,
}

abbrev start : Entry Bytes
start = record {
  actor = none;
  action = codes "scan.start";
  entity_type = codes "scan";
  entity_id = codes "s1";
  detail = none;
}

abbrev note : Entry Bytes
note = record start { actor = some (codes "ops|ci"); action = codes "scan.create" }

-- One row, and two rows.
abbrev log₁ : List (Record toy)
log₁ = log_audit toy (codes "system") start []

abbrev log₂ : List (Record toy)
log₂ = log_audit toy (codes "system") note log₁

log₂_intact : verify_audit_log_integrity toy log₂ ≡ intact
unfolding verify_audit_log_integrity log_audit audit_row last_hash genesis bytes_eq
    compute_audit_record_hash
log₂_intact = refl

row_intact : verify_audit_log_integrity toy (audit_row toy (codes "system") start [] ∷ []) ≡ intact
unfolding verify_audit_log_integrity audit_row last_hash genesis bytes_eq compute_audit_record_hash
row_intact = refl

-- The same row with another object, under the stored hashes.
abbrev row : Record toy
row = audit_row toy (codes "system") start []

abbrev edited : Record toy
edited = record row { entity_id = codes "s2" }

digests_differ :
    bytes_eq (compute_audit_record_hash toy edited) (compute_audit_record_hash toy row) ≡ false
unfolding compute_audit_record_hash audit_row last_hash genesis bytes_eq
digests_differ = refl

other_digests : compute_audit_record_hash toy edited ≢ compute_audit_record_hash toy row
other_digests e = cc (
  digests_differ,
  eq→bytes_eq (compute_audit_record_hash toy edited) (compute_audit_record_hash toy row) e,
)

edited-IsEdit : IsEdit toy row edited
unfolding audit_row compute_audit_record_hash bytes_eq last_hash genesis
edited-IsEdit = record { same_prev = refl; same_hash = refl; other_digest = other_digests }

verify_audit_log_integrity-log_audit_example :
    verify_audit_log_integrity toy (log_audit toy (codes "root") note log₂)
    ≡ verify_audit_log_integrity toy log₂
verify_audit_log_integrity-log_audit_example =
    verify_audit_log_integrity-log_audit toy toy_width (codes "root") note log₂

log_audit_run : verify_audit_log_integrity toy (log_audit toy (codes "root") note log₂) ≡ intact
log_audit_run =
    log_audit-verify_audit_log_integrity toy toy_width (codes "root") note log₂ log₂_intact

intact_logs_agree_example : (payloads toy log₂ ≡ payloads toy log₂) ⊎ Collision toy
intact_logs_agree_example =
    intact_logs_agree toy toy_width log₂ log₂ log₂_intact log₂_intact refl refl

edit_is_reported_run :
    verify_audit_log_integrity toy ([] ++ edited ∷ []) ≡ tampered (length {A = Record toy} [])
edit_is_reported_run = edit_is_reported toy [] [] row edited edited-IsEdit row_intact

verify_audit_log_integrity-prefix_run : verify_audit_log_integrity toy log₁ ≡ intact
unfolding log_audit
verify_audit_log_integrity-prefix_run =
    verify_audit_log_integrity-prefix toy log₁ (audit_row toy (codes "system") note log₁ ∷ [])
      log₂_intact

verify_audit_log_integrity-shift_run :
    verify_audit_log_integrity toy
      (record row { actor = codes "ops"; action = codes "ci|run" } ∷ [])
    ≡ verify_audit_log_integrity toy
        (record row { actor = codes "ops|ci"; action = codes "run" } ∷ [])
verify_audit_log_integrity-shift_run =
    verify_audit_log_integrity-shift toy [] [] row (codes "ops") (codes "ci") (codes "run")
