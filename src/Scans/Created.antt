-- ===== src/Scans/Created.antt =====
-- What `create_scan_from_result` leaves in the store.
use sih.Prelude.{
  ℕ, ◌<◌, ◌≡◌, refl, ap, ◌∙◌, true, false, Option, none, some, String, List, [], ◌∷◌, ◌++◌, map,
  keep, arith, append-nil, Bool-cases, Option-cases, inl, inr,
}
use sih.Prelude.Text.{str_eq, eq_iff, eq_refl}
use sih.Prelude.Bytes.{Bytes}
use sih.Prelude.Keep.{
  keep-append, keep-keep_apart, find?-keep_apart, find?-append_other, find?-append_new,
  find?-keep-not, keep-keep-not,
}
use sih.Model.Scans.{ScanStatus}
use sih.Model.{Finding, Policy}
use sih.Model.Findings.{Reason}
use sih.Audit.{Hashing}
use sih.Database.{FindingRecord, finding_to_record, record_to_finding}
use sih.Database.RoundTrip.{record_to_finding-finding_to_record}
use sih.Drift.{list_findings}
use sih.Residue.{get_coverage_certificate, CoverageCertificate}
use sih.Residue.Merge.{save_coverage_stores}
use sih.Scans.{
  Store, ScanResult, EventType, Texts, get_scan, delete_scan, insert_scan, result_scan,
  create_scan_from_result, path_coverage, unique_paths, result_certificate,
}

-- The rows of a scan's findings, read back.
keep-rows :
    (scan_id : String) (fs : List Finding)
    → keep (λ r. str_eq r.scan_id scan_id) (map (λ f. finding_to_record f scan_id) fs)
      ≡ map (λ f. finding_to_record f scan_id) fs
unfolding finding_to_record
keep-rows scan_id [] = refl
keep-rows scan_id (f ∷ fs) =
    rw (eq_refl scan_id) (ap (◌∷◌ (finding_to_record f scan_id)) (keep-rows scan_id fs))

keep-rows_other :
    (scan_id j : String) (fs : List Finding)
    → str_eq scan_id j ≡ false
    → keep (λ r. str_eq r.scan_id j) (map (λ f. finding_to_record f scan_id) fs) ≡ []
unfolding finding_to_record
keep-rows_other scan_id j [] h = refl
keep-rows_other scan_id j (f ∷ fs) h = rw h (keep-rows_other scan_id j fs h)

map-back :
    (no_reason : Reason) (scan_id : String) (fs : List Finding)
    → map (record_to_finding no_reason) (map (λ f. finding_to_record f scan_id) fs) ≡ fs
map-back no_reason scan_id [] = refl
map-back no_reason scan_id (f ∷ fs) =
    rw (record_to_finding-finding_to_record no_reason f scan_id)
      (ap (f ∷◌) (map-back no_reason scan_id fs))

pub same_not_other : (a i j : String) → str_eq i j ≡ false → str_eq a i ≡ true → str_eq a j ≡ false
same_not_other a i j h e = elim (Bool-cases (str_eq a j)) [
  | inr k ↦ k
  | inl k ↦ let ai = (eq_iff a i).0 e in let aj = (eq_iff a j).0 k in absurd (clash (rw ai at aj))
]
  where
    clash : i ≡ j → ⊥
    clash p = cc (h, (eq_iff i j).1 p)

module _ (h : Hashing) (t : Texts h) (current : Bytes) (now : ℕ) where
  -- Deleting a scan takes out its row and its findings, and no others.
  delete_scan_lem :
      (no_reason : Reason) (scan_id : String) (st : Store h)
      → (get_scan h scan_id st ≡ none → keep (λ r. str_eq r.scan_id scan_id) st.findings ≡ [])
      → let st' = delete_scan h t current now scan_id st in
        (get_scan h scan_id st' ≡ none)
        × (keep (λ r. str_eq r.scan_id scan_id) st'.findings ≡ [])
        × ((j : String)
            → str_eq scan_id j ≡ false
            → (get_scan h j st' ≡ get_scan h j st)
              × (list_findings no_reason j st'.findings ≡ list_findings no_reason j st.findings))
        × (st'.events ≡ st.events)
        × (st'.coverage ≡ st.coverage)
  unfolding delete_scan get_scan list_findings
  delete_scan_lem no_reason scan_id st owned = elim (Option-cases (get_scan h scan_id st)) [
    | inl e ↦ rw (e, delete_scan) (e, owned e, (λ j d. (refl, refl)), refl, refl)
    | inr (s, e) ↦
        rw (e, delete_scan)
          (
            find?-keep-not (λ r. str_eq r.id scan_id) st.scans,
            keep-keep-not (λ r. str_eq r.scan_id scan_id) st.findings,
            (λ j d. (
              find?-keep_apart (λ r. str_eq r.id scan_id) (λ r. str_eq r.id j)
                  (λ r. same_not_other r.id scan_id j d) st.scans,
              ap (map (record_to_finding no_reason)) (
                  keep-keep_apart (λ r. str_eq r.scan_id scan_id) (λ r. str_eq r.scan_id j)
                    (λ r. same_not_other r.scan_id scan_id j d) st.findings),
            )),
            refl,
            refl,
          )
  ]

  pub create_scan_from_result_lem :
      (no_reason : Reason) (scan_id : String) (path target_override : Option String)
      (result : ScanResult) (policy : Policy) (status : ScanStatus)
      (events : List (EventType × h.Detail)) (bundle_hash : Option String) (st : Store h)
      → (get_scan h scan_id st ≡ none → keep (λ r. str_eq r.scan_id scan_id) st.findings ≡ [])
      → let (scan, st') =
          create_scan_from_result h t current now scan_id path target_override result policy status
            events bundle_hash st in
        (get_scan h scan_id st' ≡ some scan)
        × (list_findings no_reason scan_id st'.findings ≡ result.findings)
        × ((j : String)
            → str_eq scan_id j ≡ false
            → (get_scan h j st' ≡ get_scan h j st)
              × (list_findings no_reason j st'.findings ≡ list_findings no_reason j st.findings))
  unfolding create_scan_from_result insert_scan result_scan get_scan list_findings
  create_scan_from_result_lem no_reason scan_id path target_override result policy status events
        bundle_hash st owned =
      let (gone, cleared, others, _, _) = delete_scan_lem no_reason scan_id st owned in
      let before = delete_scan h t current now scan_id st in
      let rows = map (λ f. finding_to_record f scan_id) result.findings in
      let mine = λ (r : FindingRecord). str_eq r.scan_id scan_id in
      (
        find?-append_new (λ s. str_eq s.id scan_id) before.scans
            (result_scan h t current now scan_id path target_override result policy status
              bundle_hash)
            (eq_refl scan_id) gone,
        ap (map (record_to_finding no_reason)) (
              keep-append mine before.findings rows
              ∙ ap (◌++ keep mine rows) cleared
              ∙ keep-rows scan_id result.findings)
            ∙ map-back no_reason scan_id result.findings,
        (λ j d.
            let (scan_j, findings_j) = others j d in
            (
              find?-append_other (λ s. str_eq s.id j) before.scans _ d ∙ scan_j,
              ap (map (record_to_finding no_reason)) (
                    keep-append (λ r. str_eq r.scan_id j) before.findings rows
                    ∙ ap (keep (λ r. str_eq r.scan_id j) before.findings ++◌)
                        (keep-rows_other scan_id j result.findings d)
                    ∙ append-nil (keep (λ r. str_eq r.scan_id j) before.findings))
                  ∙ findings_j,
            )),
      )

  -- Whatever a scan finds, the certificate that is saved for it says that all of its mass is
  -- attributed: a ratio of 1, no residue and no clusters.
  pub create_scan_from_result-coverage :
      (scan_id : String) (path target_override : Option String) (result : ScanResult)
      (policy : Policy) (status : ScanStatus) (events : List (EventType × h.Detail))
      (bundle_hash : Option String) (st : Store h)
      → let st' =
          (create_scan_from_result h t current now scan_id path target_override result policy status
            events bundle_hash st).1 in
        (c : CoverageCertificate) × (get_coverage_certificate scan_id st'.coverage.certificates
          ≡ some c)
        × (c.coverage_ratio ≡ record { num = 1; den = 1 })
        × (c.residue_mass ≡ 0)
        × (c.residue_cluster_count ≡ 0)
        × (c.attributed_mass ≡ c.total_mass)
        × (0 < c.total_mass)
  unfolding create_scan_from_result result_certificate
  create_scan_from_result-coverage scan_id path target_override result policy status events
        bundle_hash st =
      let coverages =
        map (path_coverage h t current now scan_id result.findings)
          (unique_paths h t current now result.findings) in
      let cert = result_certificate h t current now scan_id result coverages in
      (
        record cert { scan_id = scan_id },
        (save_coverage_stores h t.recorded current now scan_id cert coverages [] path _).0,
        refl,
        refl,
        refl,
        refl,
        ground arith,
      )
