-- ===== src/Residue/Merge.antt =====
-- What a scan does to the clusters (`save_coverage` of backend/api/store.py).
use sih.Prelude.{
  ℕ, ◌≡◌, refl, sym, ◌∙◌, ap, Bool, false, not, ◌||◌, Option, none, some, String, List, [], ◌∷◌,
  ◌++◌, map, keep, find?, arith, All, All-append, Bool-cases, inl, inr, Option-cases, none-some,
}
use sih.Prelude.Keep.{All-map, keep-append, find?_replaced, keep-keep-not}
use sih.Prelude.Bytes.{Bytes}
use sih.Prelude.Text.{str_eq, eq_refl}
use sih.Audit.{Hashing, verify_audit_log_integrity}
use sih.Audit.Chain.{HasWidth, verify_audit_log_integrity-log_audit}
use sih.Residue.{
  ResidueClusterRecord, CoverageCertificate, ArtifactCoverage, Store, merged, upsert_cluster,
  upsert_clusters, of_scan, coverage_entry, save_coverage, get_coverage_certificate,
  get_artifact_coverages,
}
use sih.Residue.Rows.{
  find?-All, HasOtherId, IsKeyed, IsOnly, IsKeyed→IsOnly, IsJustified, StaysPromoted,
  StaysPromoted-refl, StaysPromoted-trans, StaysPromoted-append, All-save_row, save_row-IsKeyed,
  save_row-StaysPromoted,
}

-- What a scan must leave as it is.
abbrev pub IsKept : List ResidueClusterRecord → List ResidueClusterRecord → Type 0
IsKept rows after =
    IsKeyed after × StaysPromoted rows after × (All IsJustified rows → All IsJustified after)

find?-none :
    (p : ResidueClusterRecord → Bool) (xs : List ResidueClusterRecord)
    → find? p xs ≡ none
    → All (λ x. p x ≡ false) xs
find?-none p [] e = tt
find?-none p (x ∷ xs) e = elim (Bool-cases (p x)) [
  | inl k ↦ absurd (none-some (sym (rw k at e)))
  | inr k ↦ (k, find?-none p xs (rw k at e))
]

Pairwise-snoc :
    (xs : List ResidueClusterRecord) (y : ResidueClusterRecord)
    → All (λ x. HasOtherId x y) xs
    → IsKeyed xs
    → IsKeyed (xs ++ y ∷ [])
Pairwise-snoc [] y a k = (tt, tt)
Pairwise-snoc (x ∷ xs) y (h, a) (b, k) =
    (All-append (HasOtherId x) xs (y ∷ []) b (h, tt), Pairwise-snoc xs y a k)

merged-IsJustified :
    (now : ℕ) (target : Option String) (c r : ResidueClusterRecord)
    → IsJustified r
    → IsJustified (merged now target c r)
unfolding merged
merged-IsJustified now target c r j = j

upsert_cluster_keeps :
    (now : ℕ) (target : Option String) (c : ResidueClusterRecord) (rows : List ResidueClusterRecord)
    → IsJustified c
    → IsKeyed rows
    → IsKept rows (upsert_cluster now target c rows)
unfolding upsert_cluster merged
upsert_cluster_keeps now target c rows j k =
    elim (Option-cases
      (find? (λ r. str_eq r.id c.id || str_eq r.content_hash c.content_hash) rows)) [
        | inl e ↦
            let fresh =
              find?-none (λ r. str_eq r.id c.id || str_eq r.content_hash c.content_hash) rows e in
            let new : ResidueClusterRecord = record c { target_id = target } in
            rw (e, upsert_cluster)
              (
                Pairwise-snoc rows new
                    (All-map
                      (λ r. (str_eq r.id c.id || str_eq r.content_hash c.content_hash) ≡ false)
                      (λ r. HasOtherId r new) (λ r f. ground arith) rows fresh)
                    k,
                StaysPromoted-append rows (new ∷ []),
                λ a. All-append IsJustified rows (new ∷ []) a (j, tt),
              )
        | inr (r, e) ↦
            let new = merged now target c r in
            let only =
              find?-All (IsOnly rows)
                (λ s. str_eq s.id c.id || str_eq s.content_hash c.content_hash) rows r
                (IsKeyed→IsOnly rows k) e in
            rw (e, upsert_cluster)
              (
                save_row-IsKeyed new rows k,
                save_row-StaysPromoted new r rows refl (λ t. t) only,
                λ a.
                    All-save_row IsJustified new rows
                      (merged-IsJustified now target c r (
                        find?-All IsJustified
                          (λ s. str_eq s.id c.id || str_eq s.content_hash c.content_hash) rows r a
                          e))
                      a,
              )
      ]

pub upsert_clusters_keeps :
    (now : ℕ) (target : Option String) (cs rows : List ResidueClusterRecord)
    → All IsJustified cs
    → IsKeyed rows
    → IsKept rows (upsert_clusters now target cs rows)
unfolding upsert_clusters
upsert_clusters_keeps now target [] rows j k = (k, StaysPromoted-refl rows, λ a. a)
upsert_clusters_keeps now target (c ∷ cs) rows (j, js) k =
    let (k₁, p₁, a₁) = upsert_cluster_keeps now target c rows j k in
    let next = upsert_cluster now target c rows in
    let (k₂, p₂, a₂) = upsert_clusters_keeps now target cs next js k₁ in
    (k₂, StaysPromoted-trans rows next (upsert_clusters now target cs next) p₁ p₂, λ a. a₂ (a₁ a))

keep-of_scan :
    (scan_id : String) (arts : List ArtifactCoverage)
    → keep (λ a. str_eq a.scan_id scan_id) (map (of_scan scan_id) arts) ≡ map (of_scan scan_id) arts
keep-of_scan scan_id [] = refl
keep-of_scan scan_id (a ∷ arts) =
    rw (eq_refl scan_id) (ap (◌∷◌ (of_scan scan_id a)) (keep-of_scan scan_id arts))

module _ (h : Hashing) (detail : CoverageCertificate → h.Detail) (current : Bytes) (now : ℕ) where
  -- The certificate and the artifacts' coverages that are read back for a scan are the ones that
  -- were saved last, under that scan's id.
  pub save_coverage_stores :
      (scan_id : String) (cert : CoverageCertificate) (arts : List ArtifactCoverage)
      (cs : List ResidueClusterRecord) (target : Option String) (st : Store h)
      → let st' = save_coverage h detail current now scan_id cert arts cs target st in
        (get_coverage_certificate scan_id st'.certificates
          ≡ some (record cert { scan_id = scan_id }))
        × (get_artifact_coverages scan_id st'.artifacts ≡ map (of_scan scan_id) arts)
  unfolding save_coverage get_coverage_certificate get_artifact_coverages
  save_coverage_stores scan_id cert arts cs target st =
      let mine = λ (a : ArtifactCoverage). str_eq a.scan_id scan_id in
      (
        find?_replaced (λ c. str_eq c.scan_id scan_id) st.certificates
            (record cert { scan_id = scan_id }) (eq_refl scan_id),
        keep-append mine (keep (λ a. not (mine a)) st.artifacts) (map (of_scan scan_id) arts)
            ∙ ap (λ l. l ++ keep mine (map (of_scan scan_id) arts))
                (keep-keep-not mine st.artifacts)
            ∙ keep-of_scan scan_id arts,
      )

  -- Saving the coverage of a scan keeps the rows of the clusters keyed by their ids, keeps what is
  -- promoted promoted, keeps every exclusion justified if the new clusters are, and keeps what the
  -- check says of the audit log.
  pub save_coverage_keeps :
      HasWidth h
      → (scan_id : String) (cert : CoverageCertificate) (arts : List ArtifactCoverage)
        (cs : List ResidueClusterRecord) (target : Option String) (st : Store h)
      → All IsJustified cs
      → IsKeyed st.rows
      → let st' = save_coverage h detail current now scan_id cert arts cs target st in
        IsKept st.rows st'.rows
        × (verify_audit_log_integrity h st'.log ≡ verify_audit_log_integrity h st.log)
  unfolding save_coverage
  save_coverage_keeps w scan_id cert arts cs target st j k = (
    upsert_clusters_keeps now target cs st.rows j k,
    verify_audit_log_integrity-log_audit h w current
        (coverage_entry h detail current now (record cert { scan_id = scan_id })) st.log,
  )
