-- ===== src/Attribution/Tests.antt =====
-- Runs of the attribution of crypto mass.
use sih.Prelude.{
  ℕ, ◌+◌, ◌≡◌, refl, true, false, not, none, some, List, [], ◌∷◌, ◌++◌, map, keep, Perm, All,
  sum_by,
}
use sih.Prelude.Bytes.{Bytes, slice, contains}
use sih.Prelude.Text.{codes}
use sih.Prelude.Sort.{Pairwise, sort_by}
use sih.Attribution.{byte, Span, spans_overlap, attribute_claims}
use sih.Attribution.Claim.{claimed, mass, attribute_claims_lem, attribute_claims_conserves}
use sih.Attribution.Predicates.{Library, lower_hex, hex_lower, table_bytes}
use sih.Attribution.Exclude.{ExclusionRecord, exclusion_of, predicate_id, evaluate_exclusions}
use sih.Attribution.Exclude.Partition.{evaluate_exclusions_conserves, part_of_table_is_excluded}
use sih.Attribution.Ledger.{starts_before, cluster_residue_spans}
use sih.Attribution.Ledger.Clusters.{
  members, IsSound, IsApart, cluster_residue_spans_covers, cluster_residue_spans_separates,
}

abbrev span_at : ℕ → ℕ → ℕ → Span
span_at start stop magnitude = record {
  artifact_hash = "a";
  kind = byte;
  start = start;
  stop = stop;
  producing_rule = "rule";
  coarse = false;
  signal_type = some "literals.high_entropy_string";
  magnitude = magnitude;
}

abbrev suspicions : List Span
suspicions = span_at 50 60 10 ∷ span_at 0 8 8 ∷ span_at 4 12 5 ∷ span_at 5 5 1 ∷ []

abbrev findings : List Span
findings = span_at 2 6 1 ∷ []

-- A hash that tells the texts apart by their length.
abbrev lib : Library
lib = record {
  sha256 = λ s. elim s [ [] ↦ "empty" | c ∷ s' ↦ "text" ];
  b64decode = λ s. none;
  utf8_decode = λ s. some s;
  isprintable = λ c. true;
}

abbrev content : Bytes
content = codes "0123"

attribute_claims_lem_run :
    let c = attribute_claims findings suspicions in
    (c.attributed ≡ keep (claimed findings) suspicions)
    × (c.unclaimed ≡ keep (λ s. not (claimed findings s)) suspicions)
    × (c.overlap_map
        ≡ map
            (λ s. (s, keep (λ f. spans_overlap s f) findings))
            (keep (claimed findings) suspicions))
attribute_claims_lem_run = attribute_claims_lem findings suspicions

evaluate_exclusions_conserves_run :
    let e = evaluate_exclusions lib content suspicions in
    Perm (e.excluded ++ e.residue) suspicions
    × (mass e.excluded + mass e.residue ≡ mass suspicions)
    × (map (λ r. r.span) e.records ≡ e.excluded)
evaluate_exclusions_conserves_run = evaluate_exclusions_conserves lib content suspicions

part_of_table_is_excluded_run :
    (r : ExclusionRecord) × (exclusion_of lib content (span_at 1 3 2) ≡ some r)
    × (predicate_id r.reason ≡ "benign_table_registry")
unfolding contains slice table_bytes hex_lower
part_of_table_is_excluded_run = part_of_table_is_excluded lib content (span_at 1 3 2) lower_hex refl

cluster_residue_spans_separates_example :
    let cs = cluster_residue_spans lib content "a" 32 suspicions in
    All IsSound cs × Pairwise (IsApart 32) cs
cluster_residue_spans_separates_example =
    cluster_residue_spans_separates lib content "a" 32 suspicions

cluster_residue_spans_covers_example :
    let cs = cluster_residue_spans lib content "a" 32 suspicions in
    (members cs ≡ sort_by starts_before suspicions)
    × Perm (members cs) suspicions
    × (sum_by (λ c. c.mass) cs ≡ mass suspicions)
cluster_residue_spans_covers_example = cluster_residue_spans_covers lib content "a" 32 suspicions

conserved_run :
    let c = attribute_claims findings suspicions in
    Perm (c.attributed ++ c.unclaimed) suspicions
    × (mass c.attributed + mass c.unclaimed ≡ mass suspicions)
conserved_run = attribute_claims_conserves findings suspicions
