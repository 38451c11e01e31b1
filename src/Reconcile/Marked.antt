-- ===== src/Reconcile/Marked.antt =====
-- What a reconciliation marks.
use sih.Prelude.{
  ℕ, ◌≡◌, refl, sym, ap, Bool, true, false, ◌&&◌, Option, none, some, String, List, [], ◌∷◌, map,
  any, keep, length, leb, ltb, Bool-cases, inl, inr, if◌then◌else◌,
}
use sih.Prelude.Text.{str_eq}
use sih.Prelude.Bytes.{Bytes}
use sih.Audit.{Hashing, log_audit, verify_audit_log_integrity}
use sih.Audit.Chain.{HasWidth, verify_audit_log_integrity-log_audit}
use sih.Database.{FindingRecord}
use sih.Reconcile.{
  extract_negotiated_tokens, finding_tokens, token_matches, is_matched, scan_of, wants_mark, mark,
  Store, reconcile_entry, reconcile_tokens, reconcile_probe_findings,
}

-- A row without its mark.
abbrev pub unmarked : FindingRecord → FindingRecord
unmarked r = record r { negotiated = none }

and_false : (a b : Bool) → a && (b && false) ≡ false
and_false true true = refl
and_false true false = refl
and_false false b = refl

module _ (scan_id : String) (tokens : List Bytes) where
  mark_done : (r : FindingRecord) → wants_mark scan_id tokens (mark scan_id tokens r) ≡ false
  unfolding mark wants_mark
  mark_done r = elim (Bool-cases (wants_mark scan_id tokens r)) [
    | inl k ↦ rw k (
        and_false (str_eq r.scan_id scan_id)
          (is_matched tokens (record r { negotiated = some true })))
    | inr k ↦ rw k k
  ]

  mark_keeps : (r : FindingRecord) → unmarked (mark scan_id tokens r) ≡ unmarked r
  unfolding mark
  mark_keeps r = elim (Bool-cases (wants_mark scan_id tokens r)) [
    | inl k ↦ rw k refl
    | inr k ↦ rw k refl
  ]

  marked_rows :
      (rows : List FindingRecord)
      → (keep (wants_mark scan_id tokens) (map (mark scan_id tokens) rows) ≡ [])
        × (map unmarked (map (mark scan_id tokens) rows) ≡ map unmarked rows)
  marked_rows [] = (refl, refl)
  marked_rows (r ∷ rows) =
      let (done, same) = marked_rows rows in (rw (mark_done r) done, λ i. mark_keeps r i ∷ same i)

  mark-none :
      (rows : List FindingRecord)
      → keep (wants_mark scan_id tokens) rows ≡ []
      → map (mark scan_id tokens) rows ≡ rows
  unfolding mark
  mark-none [] h = refl
  mark-none (r ∷ rows) h = elim (Bool-cases (wants_mark scan_id tokens r)) [
    | inl k ↦ absurd (cc (rw k at h))
    | inr k ↦ rw k (ap (r ∷◌) (mark-none rows (rw k at h)))
  ]

unmatched : (fts : List Bytes) → any (token_matches []) fts ≡ false
unfolding token_matches
unmatched [] = refl
unmatched (ft ∷ fts) = elim (Bool-cases (leb 3 (length ft))) [
  | inl k ↦ rw k (unmatched fts)
  | inr k ↦ rw k (unmatched fts)
]

keep-none : (scan_id : String) (rows : List FindingRecord) → keep (wants_mark scan_id []) rows ≡ []
unfolding wants_mark is_matched
keep-none scan_id [] = refl
keep-none scan_id (r ∷ rows) = elim (Bool-cases (str_eq r.scan_id scan_id)) [
  | inl k ↦ rw (k, unmatched (finding_tokens r)) (keep-none scan_id rows)
  | inr k ↦ rw k (keep-none scan_id rows)
]

module _ (h : Hashing) where
  -- The findings that tokens of a probe of this target are to mark.
  abbrev pub pending : String → List Bytes → Store h → List FindingRecord
  pending target_id tokens st = keep (wants_mark (scan_of target_id st.targets) tokens) st.findings

  abbrev pub IsReconciled : String → List Bytes → Store h → ℕ × Store h → Type 0
  IsReconciled target_id tokens st (count, st') =
      (count ≡ length (pending target_id tokens st))
      × (pending target_id tokens st' ≡ [])
      × (map unmarked st'.findings ≡ map unmarked st.findings)
      × (st'.targets ≡ st.targets)

module _ (h : Hashing) (w : HasWidth h) (current : Bytes) (detail : ℕ → h.Detail) where
  reconcile_tokens-IsReconciled :
      (target_id : String) (tokens : List Bytes) (st : Store h)
      → IsReconciled h target_id tokens st (reconcile_tokens h current detail target_id tokens st)
  unfolding reconcile_tokens
  reconcile_tokens-IsReconciled target_id [] st =
      let nothing = keep-none (scan_of target_id st.targets) st.findings in
      (sym (ap length nothing), nothing, refl, refl)
  reconcile_tokens-IsReconciled target_id (t ∷ ts) st =
      let scan_id = scan_of target_id st.targets in
      let (done, same) = marked_rows scan_id (t ∷ ts) st.findings in (refl, done, same, refl)

  verify_audit_log_integrity-reconcile_tokens :
      (target_id : String) (tokens : List Bytes) (st : Store h)
      → verify_audit_log_integrity h (reconcile_tokens h current detail target_id tokens st).1.log
        ≡ verify_audit_log_integrity h st.log
  unfolding reconcile_tokens
  verify_audit_log_integrity-reconcile_tokens target_id [] st = refl
  verify_audit_log_integrity-reconcile_tokens target_id (t ∷ ts) st =
      let count = length (pending h target_id (t ∷ ts) st) in
      elim (Bool-cases (ltb 0 count)) [
        | inl k ↦ rw k (
            verify_audit_log_integrity-log_audit h w current
              (reconcile_entry h current detail target_id count) st.log)
        | inr k ↦ rw k refl
      ]

  nothing_pending :
      (target_id : String) (tokens : List Bytes) (st : Store h)
      → pending h target_id tokens st ≡ []
      → reconcile_tokens h current detail target_id tokens st ≡ (0, st)
  unfolding reconcile_tokens
  nothing_pending target_id [] st e = refl
  nothing_pending target_id (t ∷ ts) st e = λ i. (
    length (e i),
    record st {
      findings = mark-none (scan_of target_id st.targets) (t ∷ ts) st.findings e i;
      log =
          (if ltb 0 (length (e i))
            then log_audit h current (reconcile_entry h current detail target_id (length (e i)))
                st.log
            else st.log);
    },
  )

  -- When the hash has a fixed width: a reconciliation returns the number of findings that were to be
  -- marked and leaves none to be marked; no more than the marks change in the findings; the targets
  -- stay as they are, and the check of the audit log says what it said before. A second one for the
  -- same probe returns 0 and changes nothing.
  pub reconcile_probe_findings_lem :
      (target_id : String) (negotiated : List (Option Bytes)) (st : Store h)
      → let (count, st') = reconcile_probe_findings h current detail target_id negotiated st in
        IsReconciled h target_id (extract_negotiated_tokens negotiated) st (count, st')
        × (reconcile_probe_findings h current detail target_id negotiated st' ≡ (0, st'))
        × (verify_audit_log_integrity h st'.log ≡ verify_audit_log_integrity h st.log)
  unfolding reconcile_probe_findings
  reconcile_probe_findings_lem target_id negotiated st =
      let tokens = extract_negotiated_tokens negotiated in
      let (count, none_left, same, targets) = reconcile_tokens-IsReconciled target_id tokens st in
      (
        (count, none_left, same, targets),
        nothing_pending target_id tokens (reconcile_tokens h current detail target_id tokens st).1
            none_left,
        verify_audit_log_integrity-reconcile_tokens target_id tokens st,
      )
