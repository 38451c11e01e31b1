-- ===== src/Alerts/Critical.antt =====
-- The alerts of a scan.
use sih.Prelude.{
  ℕ, suc, ◌≡◌, refl, ap, sym, ◌∙◌, Bool, some, String, List, [], ◌∷◌, ◌++◌, map, keep, append_assoc,
  append-nil, Bool-cases, inl, inr,
}
use sih.Prelude.Bytes.{Bytes}
use sih.Model.{Finding, RiskBand}
use sih.Audit.{Hashing, verify_audit_log_integrity}
use sih.Audit.Chain.{HasWidth, verify_audit_log_integrity-log_audit}
use sih.Alerts.{
  AlertType, new_critical, Alert, Draft, is_critical, critical_drafts, Store, create_entry,
  create_alert, dispatch_alert, alert_of, dispatch_all, check_new_critical_findings,
  evaluate_scan_alerts,
}

critical_drafts-keep :
    (type : AlertType) (fs : List Finding)
    → map (λ d. d.finding_id) (critical_drafts type fs) ≡ map (λ f. some f.id) (keep is_critical fs)
unfolding critical_drafts
critical_drafts-keep type [] = refl
critical_drafts-keep type (f ∷ fs) = elim (Bool-cases (is_critical f)) [
  | inl e ↦ rw e (ap (some f.id ∷◌) (critical_drafts-keep type fs))
  | inr e ↦ rw e (critical_drafts-keep type fs)
]

module _ (h : Hashing) (draw : ℕ → String) (detail : AlertType → RiskBand → h.Detail)
    (current : Bytes) (webhook : Bool) (now : ℕ) where
  dispatch_alert_keeps :
      HasWidth h
      → (a : Alert) (st : Store h)
      → let st' = dispatch_alert h draw detail current webhook now a st in
        (st'.alerts ≡ st.alerts ++ a ∷ [])
        × (verify_audit_log_integrity h st'.log ≡ verify_audit_log_integrity h st.log)
  unfolding dispatch_alert create_alert create_entry
  dispatch_alert_keeps w a st =
      let logged =
        verify_audit_log_integrity-log_audit h w current
          (create_entry h draw detail current webhook now a) st.log in
      elim (Bool-cases webhook) [ inl e ↦ rw e (refl, logged) | inr e ↦ rw e (refl, logged) ]

  dispatch_all-drafts :
      HasWidth h
      → (target : String) (ds : List Draft) (st : Store h)
      → let (made, st') = dispatch_all h draw detail current webhook now target ds st in
        (map (λ a. a.finding_id) made ≡ map (λ d. d.finding_id) ds)
        × (st'.alerts ≡ st.alerts ++ made)
        × (verify_audit_log_integrity h st'.log ≡ verify_audit_log_integrity h st.log)
  unfolding dispatch_all alert_of
  dispatch_all-drafts w target [] st = (refl, sym (append-nil st.alerts), refl)
  dispatch_all-drafts w target (d ∷ ds) st =
      let a = alert_of h draw detail current webhook now target st.drawn d in
      let drawn_one = record st { drawn = suc st.drawn } in
      let (one_alert, one_log) = dispatch_alert_keeps w a drawn_one in
      let next = dispatch_alert h draw detail current webhook now a drawn_one in
      let (ids, alerts, log) = dispatch_all-drafts w target ds next in
      let rest = (dispatch_all h draw detail current webhook now target ds next).0 in
      (
        ap (d.finding_id ∷◌) ids,
        alerts ∙ ap (◌++ rest) one_alert ∙ append_assoc st.alerts (a ∷ []) rest,
        log ∙ one_log,
      )

  -- When the hash has a fixed width: evaluating a scan's alerts makes one alert for each finding
  -- whose band is critical or whose score is at least 60, in the order of the findings, and for
  -- no other; the alerts table grows by just these, and the check of the audit log says what it said before.
  pub evaluate_scan_alerts_lem :
      HasWidth h
      → (target : String) (fs : List Finding) (st : Store h)
      → let (made, st') = evaluate_scan_alerts h draw detail current webhook now target fs st in
        (map (λ a. a.finding_id) made ≡ map (λ f. some f.id) (keep is_critical fs))
        × (st'.alerts ≡ st.alerts ++ made)
        × (verify_audit_log_integrity h st'.log ≡ verify_audit_log_integrity h st.log)
  unfolding evaluate_scan_alerts check_new_critical_findings
  evaluate_scan_alerts_lem w target fs st =
      let (ids, grown, verifies) =
        dispatch_all-drafts w target (critical_drafts new_critical fs) st in
      (ids ∙ critical_drafts-keep new_critical fs, grown, verifies)
