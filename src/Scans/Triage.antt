-- ===== src/Scans/Triage.antt =====
-- The triage of a finding (backend/api/routes/findings.py, get_finding and replace_finding of
-- backend/api/store.py).
use sih.Prelude.{
  ◌≡◌, ◌⊎◌, refl, sym, ap, false, Option, none, some, String, map, find?, inl, inr, Option-cases,
  if◌then◌else◌,
}
use sih.Prelude.Text.{str_eq, codes}
use sih.Prelude.Bytes.{Bytes}
use sih.Prelude.Keep.{find?-true, find?-map_changed, find?-map_apart}
use sih.Model.{Finding}
use sih.Model.Findings.{Reason, Triage}
use sih.Audit.{Hashing, Entry, log_audit, verify_audit_log_integrity}
use sih.Audit.Chain.{HasWidth, verify_audit_log_integrity-log_audit}
use sih.Database.{FindingRecord, finding_to_record, record_to_finding}
use sih.Database.RoundTrip.{record_to_finding-finding_to_record}
use sih.Scans.{Store, with_log}
use sih.Scans.Created.{same_not_other}
use sih.Scans.Routes.{Response, ok, not_found}

module _ (h : Hashing) (no_reason : Reason) where
  -- `session.get(FindingRecord, finding_id)`
  unfoldable pub finding_row : String → Store h → Option FindingRecord
  finding_row finding_id st = find? (λ r. str_eq r.id finding_id) st.findings

  unfoldable pub get_finding : String → Store h → Option Finding
  get_finding finding_id st = elim (finding_row finding_id st) [
    | none ↦ none
    | some r ↦ some (record_to_finding no_reason r)
  ]

  unfoldable pub finding_entry : String → String → Entry h.Detail
  finding_entry action finding_id = record {
    actor = none;
    action = codes action;
    entity_type = codes "finding";
    entity_id = codes finding_id;
    detail = none;
  }

  module _ (current : Bytes) where
    -- `replace_finding`; `none` is the KeyError. All columns of the row are set.
    unfoldable pub replace_finding : String → Finding → String → Store h → Option (Store h)
    replace_finding finding_id updated action st = elim (finding_row finding_id st) [
      | none ↦ none
      | some existing ↦
          let new_record = finding_to_record updated existing.scan_id in
          some (
            with_log h (log_audit h current (finding_entry action finding_id) st.coverage.log)
              (record st {
                findings = map (λ r. if str_eq r.id finding_id then new_record else r) st.findings;
              }))
    ]

    -- `PATCH /findings/{finding_id}/triage`; a KeyError cannot occur behind `get_finding`.
    unfoldable pub patch_triage : String → Triage → Store h → Response Finding × Store h
    patch_triage finding_id patch st = elim (get_finding finding_id st) [
      | none ↦ (not_found, st)
      | some finding ↦
          let updated = record finding { triage = patch } in
          elim (replace_finding finding_id updated "finding.triage" st) [
            | none ↦ (not_found, st)
            | some st' ↦ (ok updated, st')
          ]
    ]

    -- The row of a finding in a scan, and the row of the same finding there with the new triage.
    abbrev pub IsTriaged : String → Triage → Store h → Response Finding × Store h → Type 0
    IsTriaged finding_id patch st (answer, st') =
        (r r' : FindingRecord) × (finding_row finding_id st ≡ some r)
        × (finding_row finding_id st' ≡ some r')
        × (r'.scan_id ≡ r.scan_id)
        × (record_to_finding no_reason r'
            ≡ record (record_to_finding no_reason r) { triage = patch })
        × (answer ≡ ok (record_to_finding no_reason r'))
        × ((j : String) → str_eq finding_id j ≡ false → finding_row j st' ≡ finding_row j st)

    patch_triage_found :
        HasWidth h
        → (finding_id : String) (patch : Triage) (st : Store h) (r : FindingRecord)
        → finding_row finding_id st ≡ some r
        → let o = patch_triage finding_id patch st in
          IsTriaged finding_id patch st o
          × (verify_audit_log_integrity h o.1.coverage.log
              ≡ verify_audit_log_integrity h st.coverage.log)
    unfolding patch_triage get_finding replace_finding finding_row finding_to_record
        record_to_finding
    patch_triage_found w finding_id patch st r e =
        let updated = record (record_to_finding no_reason r) { triage = patch } in
        let r' = finding_to_record updated r.scan_id in
        let mine = λ (s : FindingRecord). str_eq s.id finding_id in
        let back = record_to_finding-finding_to_record no_reason updated r.scan_id in
        rw (e, patch_triage, get_finding)
          (rw (e, replace_finding)
            (
              (
                r,
                r',
                refl,
                find?-map_changed mine (λ s. r') st.findings r
                    (λ s k. find?-true mine st.findings r e) e,
                refl,
                back,
                ap ok (sym back),
                λ j d.
                    find?-map_apart mine (λ s. str_eq s.id j) (λ s. r') st.findings
                      (λ s k. (
                        same_not_other s.id finding_id j d k,
                        same_not_other r.id finding_id j d (find?-true mine st.findings r e),
                      )),
              ),
              verify_audit_log_integrity-log_audit h w current
                  (finding_entry "finding.triage" finding_id) st.coverage.log,
            ))

    -- When the hash has a fixed width: a triage of a finding that is not there is answered with 404
    -- and changes nothing; else the row of the finding is, in the same scan, that of the finding with
    -- the new triage and as it was in everything else, which is answered; no other row changes; and
    -- the check of the audit log says what it said before.
    pub patch_triage_lem :
        HasWidth h
        → (finding_id : String) (patch : Triage) (st : Store h)
        → let o = patch_triage finding_id patch st in
          (((finding_row finding_id st ≡ none) × (o ≡ (not_found, st)))
            ⊎ IsTriaged finding_id patch st o)
          × (verify_audit_log_integrity h o.1.coverage.log
              ≡ verify_audit_log_integrity h st.coverage.log)
    unfolding patch_triage get_finding
    patch_triage_lem w finding_id patch st = elim (Option-cases (finding_row finding_id st)) [
      | inl e ↦ rw (e, patch_triage, get_finding) (inl (refl, refl), refl)
      | inr (r, e) ↦
          let (done, verified) = patch_triage_found w finding_id patch st r e in
          (inr done, verified)
    ]
