-- ===== src/Scans/Events.antt =====
-- The events of a scan, and how a client resumes them.
use sih.Prelude.{
  ℕ, zero, suc, ◌+◌, ◌<◌, ◌≡◌, refl, ap, ◌∙◌, Bool, true, false, ◌&&◌, Option, String, List, [],
  ◌∷◌, ◌++◌, keep, drop, length, leb, ltb, arith, Bool-cases, Option-cases, inl, inr,
}
use sih.Prelude.Text.{str_eq, eq_refl}
use sih.Prelude.Bytes.{Bytes}
use sih.Prelude.Keep.{keep-append}
use sih.Prelude.Sort.{insert_by, sort_by}
use sih.Model.Scans.{ScanStatus}
use sih.Model.{Policy}
use sih.Audit.{Hashing}
use sih.Scans.{
  Store, ScanResult, EventType, ScanEvent, Texts, list_events, number_events, final_type,
  create_scan_from_result, insert_scan, delete_scan, get_scan, result_scan,
}

module _ (scan_id : String) {P : Type 0} where
  abbrev in_order : ScanEvent P → ScanEvent P → Bool
  in_order a b = leb a.event_id b.event_id

  abbrev is_after : ℕ → ScanEvent P → Bool
  is_after after e = str_eq e.scan_id scan_id && ltb after e.event_id

  sort_by-number_events :
      (i : ℕ) (es : List (EventType × P))
      → sort_by in_order (number_events scan_id i es) ≡ number_events scan_id i es
  unfolding sort_by insert_by number_events
  sort_by-number_events i [] = refl
  sort_by-number_events i ((t, p) ∷ []) = refl
  sort_by-number_events i ((t, p) ∷ (u, q) ∷ es) =
      let e : leb i (suc i) ≡ true = ground arith in
      let next = sort_by-number_events (suc i) ((u, q) ∷ es) in rw next (rw e refl)

  keep-number_events_all :
      (after i : ℕ) (es : List (EventType × P))
      → after < i
      → keep (is_after after) (number_events scan_id i es) ≡ number_events scan_id i es
  unfolding number_events
  keep-number_events_all after i [] h = refl
  keep-number_events_all after i ((t, p) ∷ es) h =
      let late : ltb after i ≡ true = ground arith in
      rw (eq_refl scan_id, late)
        (ap (record { scan_id = scan_id; event_id = i; type = t; payload = p } ∷◌)
          (keep-number_events_all after (suc i) es (omega arith)))

  -- What is behind event `after` of the events from `i` on, of which `k` are up to it.
  keep-number_events :
      (after i k : ℕ) (es : List (EventType × P))
      → i + k ≡ suc after
      → keep (is_after after) (number_events scan_id i es)
        ≡ number_events scan_id (suc after) (drop k es)
  unfolding number_events
  keep-number_events after i zero es h =
      let e : i ≡ suc after = omega (arith, h) in
      keep-number_events_all after i es (omega (arith, h))
      ∙ ap (λ (n : ℕ). number_events scan_id n es) e
  keep-number_events after i (suc k) [] h = refl
  keep-number_events after i (suc k) ((t, p) ∷ es) h =
      let early : ltb after i ≡ false = ground (arith, h) in
      rw (eq_refl scan_id, early) (keep-number_events after (suc i) k es (omega (arith, h)))

  keep-none_after :
      (after : ℕ) (es : List (ScanEvent P))
      → keep (λ e. str_eq e.scan_id scan_id) es ≡ []
      → keep (is_after after) es ≡ []
  keep-none_after after [] h = refl
  keep-none_after after (e ∷ es) h = elim (Bool-cases (str_eq e.scan_id scan_id)) [
    | inl k ↦ absurd (cc (rw k at h))
    | inr k ↦ rw k (keep-none_after after es (rw k at h))
  ]

module _ (h : Hashing) (t : Texts h) (current : Bytes) (now : ℕ) where
  delete_scan-events :
      (scan_id : String) (st : Store h)
      → (delete_scan h t current now scan_id st).events ≡ st.events
  unfolding delete_scan
  delete_scan-events scan_id st = elim (Option-cases (get_scan h scan_id st)) [
    | inl e ↦ rw (e, delete_scan) refl
    | inr (s, e) ↦ rw (e, delete_scan) refl
  ]

  -- For a scan that had no events: a client that has seen the events up to number `after` is given
  -- the events of the scan behind these, numbered from `after + 1` on, and the event that ends the
  -- scan behind them all.
  pub list_events-create_scan_from_result :
      (scan_id : String) (path target_override : Option String) (result : ScanResult)
      (policy : Policy) (status : ScanStatus) (events : List (EventType × h.Detail))
      (bundle_hash : Option String) (st : Store h) (after : ℕ)
      → keep (λ e. str_eq e.scan_id scan_id) st.events ≡ []
      → list_events h scan_id after
          (create_scan_from_result h t current now scan_id path target_override result policy status
            events bundle_hash st).1
        ≡ number_events scan_id (suc after) (
            drop after (
              events ++ (final_type status, t.final_payload scan_id (length result.findings)) ∷ []))
  unfolding list_events create_scan_from_result insert_scan result_scan
  list_events-create_scan_from_result scan_id path target_override result policy status events
        bundle_hash st after fresh =
      let all_events =
        events ++ (final_type status, t.final_payload scan_id (length result.findings)) ∷ [] in
      let before = delete_scan h t current now scan_id st in
      let old = keep-none_after scan_id after st.events fresh in
      ap (sort_by (in_order scan_id)) (
        keep-append (is_after scan_id after) before.events (number_events scan_id 1 all_events)
        ∙ ap
            (λ es.
              keep (is_after scan_id after) es
              ++ keep (is_after scan_id after) (number_events scan_id 1 all_events))
            (delete_scan-events scan_id st)
        ∙ ap (◌++ keep (is_after scan_id after) (number_events scan_id 1 all_events)) old
        ∙ keep-number_events scan_id after 1 after all_events (omega arith))
      ∙ sort_by-number_events scan_id (suc after) (drop after all_events)
