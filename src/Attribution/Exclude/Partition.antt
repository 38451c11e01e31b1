-- ===== src/Attribution/Exclude/Partition.antt =====
-- What `evaluate_exclusions` does with the spans it is given.
use sih.Prelude.{
  ◌+◌, ◌≡◌, refl, ap, Bool, true, false, not, none, some, List, [], ◌∷◌, ◌++◌, map, keep, Perm,
  arith, Option-cases, inl, inr, String, any, ◌||◌,
}
use sih.Prelude.Keep.{find?_of_any, keep-perm, sum_by-keep}
use sih.Prelude.Bytes.{Bytes, slice, contains}
use sih.Attribution.{Span}
use sih.Attribution.Claim.{mass}
use sih.Attribution.Predicates.{
  Library, Table, crc32, base64, lower_hex, upper_hex, table_bytes, benign_table_registry,
}
use sih.Attribution.Exclude.{
  ExclusionRecord, known_table, exclusion_of, predicate_id, table_overlapping, table_with_hash,
  exclude_one, evaluate_exclusions, match_benign,
}

abbrev pub is_excluded : Library → Bytes → Span → Bool
is_excluded lib content s = elim (exclusion_of lib content s) [ none ↦ false | some r ↦ true ]

module _ (lib : Library) (content : Bytes) where
  pub record_span :
      (s : Span) (r : ExclusionRecord) → exclusion_of lib content s ≡ some r → r.span ≡ s
  unfolding exclusion_of
  record_span s r e = ground arith

  excluded_of_none :
      (s : Span) → exclusion_of lib content s ≡ none → is_excluded lib content s ≡ false
  excluded_of_none s e = rw (e, is_excluded) refl

  excluded_of_some :
      (s : Span) (r : ExclusionRecord)
      → exclusion_of lib content s ≡ some r
      → is_excluded lib content s ≡ true
  excluded_of_some s r e = rw (e, is_excluded) refl

  -- The excluded spans and the residue are the spans with and without a record, in order; the
  -- records are those of the excluded spans.
  pub evaluate_exclusions_lem :
      (spans : List Span)
      → let e = evaluate_exclusions lib content spans in
        (e.excluded ≡ keep (is_excluded lib content) spans)
        × (e.residue ≡ keep (λ s. not (is_excluded lib content s)) spans)
        × (map (λ r. r.span) e.records ≡ e.excluded)
  unfolding evaluate_exclusions exclude_one
  evaluate_exclusions_lem [] = (refl, refl, refl)
  evaluate_exclusions_lem (s ∷ ss) =
      let (x, r, m) = evaluate_exclusions_lem ss in
      elim (Option-cases (exclusion_of lib content s)) [
        | inl e ↦ rw (e, exclude_one, excluded_of_none s e) (x, ap (◌∷◌ s) r, m)
        | inr (k, e) ↦
            rw (e, exclude_one, excluded_of_some s k e)
              (ap (◌∷◌ s) x, r, rw (record_span s k e) (ap (◌∷◌ s) m))
      ]

  -- Exclusion loses nothing: the excluded spans and the residue are a rearrangement of the spans,
  -- their masses add up, and there is one record for each excluded span.
  pub evaluate_exclusions_conserves :
      (spans : List Span)
      → let e = evaluate_exclusions lib content spans in
        Perm (e.excluded ++ e.residue) spans
        × (mass e.excluded + mass e.residue ≡ mass spans)
        × (map (λ r. r.span) e.records ≡ e.excluded)
  evaluate_exclusions_conserves spans =
      let (x, r, m) = evaluate_exclusions_lem spans in
      (
        rw (x, r) (keep-perm (is_excluded lib content) spans),
        rw (x, r) (sum_by-keep (λ s. s.magnitude) (is_excluded lib content) spans),
        m,
      )

  table_overlapping-some :
      (s : Bytes) (t : Table)
      → contains s (table_bytes t) ≡ true
      → (u : Table) × (table_overlapping lib s ≡ some u)
  unfolding table_overlapping
  table_overlapping-some s t h =
      find?_of_any (λ u. contains (table_bytes u) s || contains s (table_bytes u))
        benign_table_registry (among t h)
    where
      among :
          (u : Table)
          → contains s (table_bytes u) ≡ true
          → any
              (λ v. contains (table_bytes v) s || contains s (table_bytes v))
              benign_table_registry
            ≡ true
      among crc32 h = ground arith
      among base64 h = ground arith
      among lower_hex h = ground arith
      among upper_hex h = ground arith

  match_benign-some :
      (s : Bytes) (t : Table)
      → contains s (table_bytes t) ≡ true
      → (u : Table × String) × (match_benign lib s ≡ some u)
  unfolding match_benign
  match_benign-some s t h = elim (Option-cases (table_with_hash lib (lib.sha256 s))) [
    | inl e ↦
        let (u, k) = table_overlapping-some s t h in
        rw (e, match_benign) (rw k ((u, lib.sha256 (table_bytes u)), refl))
    | inr (u, e) ↦ rw (e, match_benign) ((u, lib.sha256 s), refl)
  ]

  -- A span whose bytes are a part of a registered table is excluded as a table, whatever its signal
  -- type is, and so is a span with no bytes.
  pub part_of_table_is_excluded :
      (s : Span) (t : Table)
      → contains (slice s.start s.stop content) (table_bytes t) ≡ true
      → (r : ExclusionRecord) × (exclusion_of lib content s ≡ some r)
        × (predicate_id r.reason ≡ "benign_table_registry")
  unfolding exclusion_of predicate_id
  part_of_table_is_excluded s t h =
      let ((u, hash), e) = match_benign-some (slice s.start s.stop content) t h in
      rw (e, exclusion_of)
        (record { span = s; reason = known_table u; content_hash = hash }, refl, refl)
