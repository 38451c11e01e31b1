-- ===== src/Scans/Routes/Paging.antt =====
-- The two ways in which the findings of a scan are paged.
use sih.Prelude.{
  ℕ, zero, suc, ◌+◌, ◌-◌, ◌≡◌, refl, sym, ap, ◌∙◌, Bool, true, none, some, String, List, [], ◌∷◌,
  map, keep, length, take, drop, arith, sum_by, if◌then◌else◌,
}
use sih.Prelude.Int.{pos, ◌+ℤ◌, ltb_ℤ}
use sih.Prelude.Text.{str_eq}
use sih.Prelude.Bytes.{Bytes}
use sih.Prelude.Sort.{sort_by, sum_by-sort_by}
use sih.Model.Scans.{Scan}
use sih.Model.Findings.{Reason, Finding}
use sih.Audit.{Hashing}
use sih.Database.{FindingRecord, record_to_finding}
use sih.Findings.{Query, paginate, offset_of, slice_index}
use sih.Scans.{Store, get_scan, count_findings, list_findings_page}
use sih.Scans.Routes.{ok, is_unfiltered, get_findings}

module _ {ℓ κ} {A : Type ℓ} {B : Type κ} (f : A → B) where
  map-take : (n : ℕ) (xs : List A) → map f (take n xs) ≡ take n (map f xs)
  map-take zero xs = refl
  map-take (suc n) [] = refl
  map-take (suc n) (x ∷ xs) = ap (f x ∷◌) (map-take n xs)

  map-drop : (n : ℕ) (xs : List A) → map f (drop n xs) ≡ drop n (map f xs)
  map-drop zero xs = refl
  map-drop (suc n) [] = refl
  map-drop (suc n) (x ∷ xs) = map-drop n xs

  length-map : (xs : List A) → length (map f xs) ≡ length xs
  length-map [] = refl
  length-map (x ∷ xs) = ap suc (length-map xs)

length-sum_by {ℓ} : {A : Type ℓ} (xs : List A) → sum_by (λ x. 1) xs ≡ length xs
length-sum_by [] = refl
length-sum_by (x ∷ xs) = omega (arith, length-sum_by xs)

length-sort_by {ℓ} :
    {A : Type ℓ} (le : A → A → Bool) (xs : List A) → length (sort_by le xs) ≡ length xs
length-sort_by le xs =
    sym (length-sum_by (sort_by le xs)) ∙ sum_by-sort_by (λ x. 1) le xs ∙ length-sum_by xs

+ℤ-pos : (a b : ℕ) → pos a +ℤ pos b ≡ pos (a + b)
unfolding ◌+ℤ◌
+ℤ-pos a b = ground arith

module _ (h : Hashing) (may_stand : String → String → Bool) (no_reason : Reason)
    (lower : Bytes → Bytes) where
  -- The findings of a scan, by id.
  abbrev pub by_id : String → Store h → List Finding
  by_id scan_id st =
      map (record_to_finding no_reason)
        (sort_by (λ a b. may_stand a.id b.id) (keep (λ r. str_eq r.scan_id scan_id) st.findings))

  -- For a scan that is there, without filters and with a cursor that is not negative, the route
  -- answers from the database with the page that the general way would cut from all findings of
  -- the scan, in the order of their ids: the same items, the same next cursor and the same total.
  pub get_findings_lem :
      (scan_id : String) (query : Query) (offset limit : ℕ) (scan : Scan) (st : Store h)
      → get_scan h scan_id st ≡ some scan
      → is_unfiltered query ≡ true
      → get_findings h may_stand no_reason lower scan_id query (some (pos offset)) limit st
        ≡ ok (paginate (some (pos offset)) limit (by_id scan_id st))
  unfolding get_findings list_findings_page count_findings paginate slice_index offset_of
  get_findings_lem scan_id query offset limit scan st found plain =
      rw (found, plain, get_findings)
        (rw (+ℤ-pos offset limit) (λ i. ok (record {
          items = same_items i;
          cursor =
              (if ltb_ℤ (pos (offset + limit)) (pos (same_total i))
                then some (pos (offset + limit))
                else none);
          total = same_total i;
        })))
    where
      rows : List FindingRecord
      rows = keep (λ r. str_eq r.scan_id scan_id) st.findings

      sorted : List FindingRecord
      sorted = sort_by (λ a b. may_stand a.id b.id) rows

      same_total : length rows ≡ length (map (record_to_finding no_reason) sorted)
      same_total = sym (
          length-map (record_to_finding no_reason) sorted
          ∙ length-sort_by (λ a b. may_stand a.id b.id) rows)

      same_items :
          map (record_to_finding no_reason) (take limit (drop offset sorted))
          ≡ take (offset + limit - offset) (drop offset (map (record_to_finding no_reason) sorted))
      same_items =
          let e : limit ≡ offset + limit - offset = omega arith in
          map-take (record_to_finding no_reason) limit (drop offset sorted)
          ∙ ap (take limit) (map-drop (record_to_finding no_reason) offset sorted)
          ∙ ap (λ (n : ℕ). take n (drop offset (map (record_to_finding no_reason) sorted))) e
