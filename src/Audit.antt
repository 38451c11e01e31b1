-- ===== src/Audit.antt =====
-- The tamper-evident audit log (backend/api/db.py: `compute_audit_record_hash`, `log_audit`,
-- `verify_audit_log_integrity`). The table is the list of its rows in ascending order of id.
pub mod Chain
pub mod Tamper
pub mod Toy
mod Tests
use sih.Prelude.{ℕ, ◌≡◌, Bool, Option, none, some, List, [], ◌∷◌, ◌++◌, arith, if◌then◌else◌}
use sih.Prelude.Bytes.{Bytes, bytes_eq}

-- What the log takes from Python's library: the JSON text of a `detail` dictionary, and SHA-256.
-- `Detail` is the type of dictionaries, and `empty_detail` is `{}`.
pub record Hashing : Type 1 where
  pub Detail : Type 0
  pub empty_detail : Detail
  pub dumps : Detail → Bytes
  pub hexdigest : Bytes → Bytes

-- `AuditLogRecord`, less its id, which is the position in the table.
pub record AuditLogRecord (D : Type 0) : Type 0 where
  pub actor : Bytes
  pub action : Bytes
  pub entity_type : Bytes
  pub entity_id : Bytes
  pub detail : D
  pub prev_hash : Bytes
  pub record_hash : Bytes

-- The arguments of `log_audit`: `actor` and `detail` may be left out.
pub record Entry (D : Type 0) : Type 0 where
  pub actor : Option Bytes
  pub action : Bytes
  pub entity_type : Bytes
  pub entity_id : Bytes
  pub detail : Option D

-- The result of the check: `(True, None)`, or `(False, reason)` with the index of the bad row.
pub data Verdict : Type 0 where
  intact : Verdict
  broken_chain : ℕ → Verdict
  tampered : ℕ → Verdict

-- `"0" * 64`
unfoldable pub genesis : Bytes
genesis = zeros 64
  where
    zeros : ℕ → Bytes
    zeros = elim [ ℕ.zero ↦ [] | ℕ.suc (n → rest) ↦ b'0' ∷ rest ]

abbrev pub bar : ℕ
bar = b'|'

-- The f-string `{actor}|{action}|{entity_type}|{entity_id}|{detail_str}|{prev_hash}`.
abbrev pub payload : Bytes → Bytes → Bytes → Bytes → Bytes → Bytes → Bytes
payload actor action entity_type entity_id detail_str prev_hash =
    actor
    ++ (bar ∷ action
        ++ (bar ∷ entity_type ++ (bar ∷ entity_id ++ (bar ∷ detail_str ++ (bar ∷ prev_hash)))))

module _ (h : Hashing) where
  open h use {Detail, empty_detail, dumps, hexdigest}

  abbrev pub Record : Type 0
  Record = AuditLogRecord Detail

  unfoldable pub record_payload : Record → Bytes
  record_payload r = payload r.actor r.action r.entity_type r.entity_id (dumps r.detail) r.prev_hash

  -- `compute_audit_record_hash` over the fields of a row
  unfoldable pub compute_audit_record_hash : Record → Bytes
  unfolding record_payload
  compute_audit_record_hash r = hexdigest (record_payload r)

  unfoldable pub last_hash : List Record → Bytes
  last_hash [] = genesis
  last_hash (r ∷ []) = elim r.record_hash [ [] ↦ genesis | c ∷ cs ↦ c ∷ cs ]
  last_hash (r ∷ s ∷ rs) = last_hash (s ∷ rs)

  abbrev pub detail_or : Option Detail → Detail
  detail_or none = empty_detail
  detail_or (some d) = d

  -- `actor or get_current_actor()`: an empty actor counts as none.
  abbrev pub actor_or : Bytes → Option Bytes → Bytes
  actor_or current none = current
  actor_or current (some []) = current
  actor_or current (some (c ∷ cs)) = c ∷ cs

  -- The row that `log_audit` adds to the table `log`.
  unfoldable pub audit_row : Bytes → Entry Detail → List Record → Record
  audit_row current e log =
      let unsigned : Record = record {
        actor = actor_or current e.actor;
        action = e.action;
        entity_type = e.entity_type;
        entity_id = e.entity_id;
        detail = detail_or e.detail;
        prev_hash = last_hash log;
        record_hash = [];
      } in
      record unsigned { record_hash = compute_audit_record_hash unsigned }

  unfoldable pub log_audit : Bytes → Entry Detail → List Record → List Record
  log_audit current e log = log ++ audit_row current e log ∷ []

  -- The loop of `verify_audit_log_integrity`, from the row of index `i`.
  unfoldable pub verify_from : Bytes → ℕ → List Record → Verdict
  verify_from expected_prev i [] = intact
  verify_from expected_prev i (r ∷ rs) =
      let rest = verify_from r.record_hash (ℕ.suc i) rs in
      if bytes_eq r.prev_hash expected_prev
      then if bytes_eq r.record_hash (compute_audit_record_hash r) then rest else tampered i
      else broken_chain i

  unfoldable pub verify_audit_log_integrity : List Record → Verdict
  unfolding verify_from
  verify_audit_log_integrity records = verify_from genesis 0 records
