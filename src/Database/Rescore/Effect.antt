-- ===== src/Database/Rescore/Effect.antt =====
-- What rescoring does to a scan (backend/api/store.py, `rescore_scan_findings`), and where it
-- disagrees with the scores that a scan stores.
use sih.Prelude.{
  ℕ, ◌<◌, ◌≡◌, refl, ap, ◌∙◌, ◌≢◌, Bool, true, false, ◌&&◌, ◌||◌, Option, none, some, List, [], ◌∷◌,
  map, keep, any, String, arith, Bool-cases, inl, inr, subst, some_inj, none-some,
}
use sih.Prelude.Int.{pos}
use sih.Prelude.Text.{str_eq}
use sih.Model.Scans.{Scan, BandCounts}
use sih.Model.{RiskBand, low, Fraction}
use sih.Risk.{compute_score, band_for_score, urgency_of}
use sih.Database.{FindingRecord, or_else}
use sih.Database.Rescore.{
  is_eligible, new_u, new_score, new_band, apart, score_moved, band_moved, is_changed, rescored,
  update_row, Tables, horizon, count_bands, update_scan, rescore_rows,
}
use sih.Database.Rescore.Rows.{band_eq_iff, apart_irrefl, rescored_settled, update_row_idem}

-- The score of the formula for a row, under a horizon above 0.
abbrev pub formula_score : ℕ → FindingRecord → Fraction
formula_score z r =
    compute_score (or_else r.risk_v 0) (or_else r.risk_f 0) (or_else r.risk_e 0)
      (or_else r.risk_k 0) (urgency_of (or_else r.risk_x (pos 0)) (or_else r.risk_y (pos 0)) z)

pub new_score_lem : (z : ℕ) (r : FindingRecord) → 0 < z → new_score z r ≡ some (formula_score z r)
unfolding new_score new_u
new_score_lem z r h = ground arith

new_band_lem :
    (z : ℕ) (r : FindingRecord) → 0 < z → new_band z r ≡ band_for_score (formula_score z r)
unfolding new_band
new_band_lem z r h = rw (new_score_lem z r h, new_band)

quiet :
    (s f : Fraction) (b c : RiskBand) (o n : Option Fraction) (p : Option RiskBand)
    → (score_moved o n || band_moved p c) ≡ false
    → o ≡ some s
    → n ≡ some f
    → p ≡ some b
    → (apart s f ≡ false) × (b ≡ c)
unfolding score_moved band_moved
quiet s f b c o n p h eo en ep = ground (arith, band_eq_iff b c)

moved_from :
    (b : RiskBand) (o n : Option Fraction) (p : Option RiskBand)
    → p ≡ some b
    → b ≢ low
    → (score_moved o n || band_moved p low) ≡ true
unfolding band_moved
moved_from b o n p e other = ground (arith, band_eq_iff b low)

-- What a row of the scan holds afterwards, under a horizon above 0.
pub record IsRescored (z : ℕ) (before after : FindingRecord) : Type 0 where
  pub score : Fraction
  pub stored : after.risk_score ≡ some score
  pub near : apart score (formula_score z before) ≡ false
  pub band : after.risk_band ≡ some (band_for_score (formula_score z before))

-- Under a horizon above 0, a row of the scan that has a score and a band and is not classically
-- broken holds afterwards a score within 1e-6 of the formula's, and exactly the formula's band.
pub update_row-IsRescored :
    (scan_id : String) (z : ℕ) (r : FindingRecord) (s : Fraction) (b : RiskBand)
    → 0 < z
    → is_eligible scan_id r ≡ true
    → r.risk_score ≡ some s
    → r.risk_band ≡ some b
    → IsRescored z r (update_row scan_id z r)
unfolding update_row
update_row-IsRescored scan_id z r s b h e hs hb = elim (Bool-cases (is_changed z r)) [
  | inl moved ↦
      rw (e, moved)
        (record {
          score = formula_score z r;
          stored = unfold rescored in new_score_lem z r h;
          near = apart_irrefl (formula_score z r);
          band = unfold rescored in ap some (new_band_lem z r h);
        })
  | inr still ↦
      let (close, same) =
        quiet s (formula_score z r) b (new_band z r) r.risk_score (new_score z r) r.risk_band
          (unfold is_changed in still) hs (new_score_lem z r h) hb in
      rw (e, still)
        (record {
          score = s;
          stored = hs;
          near = close;
          band = hb ∙ ap some (same ∙ new_band_lem z r h);
        })
]

-- Under a horizon of 0 the division gives NULL: a row of the scan that has a score, is not
-- classically broken and whose band is not low loses its score, and its band becomes low.
pub update_row_zero :
    (scan_id : String) (r : FindingRecord) (s : Fraction) (b : RiskBand)
    → is_eligible scan_id r ≡ true
    → r.risk_score ≡ some s
    → r.risk_band ≡ some b
    → b ≢ low
    → ((update_row scan_id 0 r).risk_score ≡ none) × ((update_row scan_id 0 r).risk_band ≡ some low)
unfolding update_row
update_row_zero scan_id r s b e hs hb other =
    rw (e, changed) (unfold rescored new_score new_band new_u in (refl, refl))
  where
    changed : is_changed 0 r ≡ true
    changed =
        unfold is_changed new_band new_score new_u in
        moved_from b r.risk_score none r.risk_band hb other

-- What a call for a scan that exists returns.
abbrev outcome : String → Option ℕ → Tables → BandCounts × List FindingRecord × Tables
outcome scan_id crqc_years t =
    let z = horizon crqc_years in
    let findings = map (update_row scan_id z) t.findings in
    let bands = count_bands scan_id findings in
    (
      bands,
      map (rescored z) (keep (λ r. is_eligible scan_id r && is_changed z r) t.findings),
      record { scans = map (update_scan scan_id bands crqc_years) t.scans; findings = findings },
    )

abbrev known : String → List Scan → Bool
known scan_id = any (λ s. str_eq s.id scan_id)

update_scan-id :
    (scan_id : String) (bands : BandCounts) (c : Option ℕ) (s : Scan)
    → (update_scan scan_id bands c s).id ≡ s.id
unfolding update_scan
update_scan-id scan_id bands c s = ground arith

known-map :
    (scan_id : String) (bands : BandCounts) (c : Option ℕ) (ss : List Scan)
    → known scan_id (map (update_scan scan_id bands c) ss) ≡ known scan_id ss
known-map scan_id bands c [] = refl
known-map scan_id bands c (s ∷ ss) =
    rw (update_scan-id scan_id bands c s) (rw (known-map scan_id bands c ss))

update_scan_twice :
    (scan_id : String) (bands : BandCounts) (c : Option ℕ) (ss : List Scan)
    → map (update_scan scan_id bands c) (map (update_scan scan_id bands c) ss)
      ≡ map (update_scan scan_id bands c) ss
unfolding update_scan
update_scan_twice scan_id bands c [] = refl
update_scan_twice scan_id bands c (s ∷ ss) = ground (arith, update_scan_twice scan_id bands c ss)

rows_twice :
    (scan_id : String) (z : ℕ) (rs : List FindingRecord)
    → map (update_row scan_id z) (map (update_row scan_id z) rs) ≡ map (update_row scan_id z) rs
rows_twice scan_id z [] = refl
rows_twice scan_id z (r ∷ rs) = rw (update_row_idem scan_id z r) (rw (rows_twice scan_id z rs))

row_settled :
    (scan_id : String) (z : ℕ) (r : FindingRecord)
    → let r' = update_row scan_id z r in (is_eligible scan_id r' && is_changed z r') ≡ false
unfolding update_row
row_settled scan_id z r = elim (Bool-cases (is_eligible scan_id r && is_changed z r)) [
  | inl e ↦ rw e (rw (rescored_settled z r) (ground arith))
  | inr e ↦ rw e e
]

rows_settled :
    (scan_id : String) (z : ℕ) (rs : List FindingRecord)
    → keep (λ r. is_eligible scan_id r && is_changed z r) (map (update_row scan_id z) rs) ≡ []
rows_settled scan_id z [] = refl
rows_settled scan_id z (r ∷ rs) = rw (row_settled scan_id z r) (rows_settled scan_id z rs)

outcome_twice :
    (scan_id : String) (c : Option ℕ) (t : Tables)
    → let o = outcome scan_id c t in outcome scan_id c o.2 ≡ (o.0, [], o.2)
outcome_twice scan_id c t =
    let z = horizon c in
    let bands = count_bands scan_id (map (update_row scan_id z) t.findings) in
    rw (rows_twice scan_id z t.findings, rows_settled scan_id z t.findings)
      (rw (update_scan_twice scan_id bands c t.scans))

-- Rescoring a scan a second time under one horizon reports no changed finding, gives the same
-- counts and leaves the tables as they are.
pub rescore_rows_twice :
    (scan_id : String) (crqc_years : Option ℕ) (t : Tables)
    (o : BandCounts × List FindingRecord × Tables)
    → rescore_rows scan_id crqc_years t ≡ some o
    → rescore_rows scan_id crqc_years o.2 ≡ some (o.0, [], o.2)
unfolding rescore_rows
rescore_rows_twice scan_id c t o h = elim (Bool-cases (known scan_id t.scans)) [
  | inl e ↦
      subst
        (λ (p : BandCounts × List FindingRecord × Tables).
          rescore_rows scan_id c p.2 ≡ some (p.0, [], p.2))
        (some_inj (rw e at h))
        (rw
          (known-map scan_id (count_bands scan_id (map (update_row scan_id (horizon c)) t.findings))
            c t.scans)
          (rw e (ap some (outcome_twice scan_id c t))))
  | inr e ↦ absurd (none-some (rw e at h))
]
