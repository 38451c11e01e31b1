-- ===== src/Attribution/Ledger.antt =====
-- The ledger of an artifact and the clusters of its residue (backend/engine/attribute/ledger.py).
pub mod Clusters
pub mod Conservation
use sih.Prelude.{
  ℕ, ◌+◌, ◌≤◌, ◌<◌, ◌≡◌, max, Bool, true, false, Option, none, some, String, List, [], ◌∷◌, ◌++◌,
  take, ltb, leb, ◌==◌, ◌&&◌, ◌||◌, if◌then◌else◌,
}
use sih.Prelude.Bytes.{Bytes, slice}
use sih.Prelude.Sort.{sort_by}
use sih.Model.Findings.{Fraction}
use sih.Attribution.{Span, Claims, attribute_claims}
use sih.Attribution.Claim.{mass}
use sih.Attribution.Predicates.{Library}
use sih.Attribution.Exclude.{ExclusionRecord, evaluate_exclusions}

pub data ClusterState : Type 0 where
  is_open promoted_to_rule excluded accepted : ClusterState

pub record ResidueCluster : Type 0 where
  pub id : String
  pub artifact_hash : String
  pub start : ℕ
  pub stop : ℕ
  pub mass : ℕ
  pub spans : List Span
  pub state : ClusterState
  pub content_preview : Bytes
  pub owner : Option String
  pub justification : Option String

-- The order of the keys `(s.start, s.end)`.
unfoldable pub starts_before : Span → Span → Bool
starts_before s t = ltb s.start t.start || s.start == t.start && leb s.stop t.stop

module _ (lib : Library) (content : Bytes) (artifact_hash : String) where
  -- The `ResidueCluster(…)` that both ends of the loop append. A Latin-1 preview is the bytes
  -- themselves.
  unfoldable pub cluster : ℕ → ℕ → List Span → ResidueCluster
  cluster start stop spans = record {
    id = lib.sha256 (slice start stop content);
    artifact_hash = artifact_hash;
    start = start;
    stop = stop;
    mass = mass spans;
    spans = spans;
    state = is_open;
    content_preview = take 60 (slice start stop content);
    owner = none;
    justification = none;
  }

  -- The loop, on `cur_start`, `cur_end` and `cur_spans`, and the `append` behind it.
  unfoldable pub cluster_from : ℕ → ℕ → ℕ → List Span → List Span → List ResidueCluster
  cluster_from gap start stop spans [] = cluster start stop spans ∷ []
  cluster_from gap start stop spans (s ∷ rest) =
      let joined = cluster_from gap start (max stop s.stop) (spans ++ s ∷ []) rest in
      let apart = cluster_from gap s.start s.stop (s ∷ []) rest in
      if leb s.start (stop + gap) then joined else cluster start stop spans ∷ apart

  unfoldable pub cluster_sorted : ℕ → List Span → List ResidueCluster
  cluster_sorted gap [] = []
  cluster_sorted gap (s ∷ rest) = cluster_from gap s.start s.stop (s ∷ []) rest

  unfoldable pub cluster_residue_spans : ℕ → List Span → List ResidueCluster
  cluster_residue_spans gap spans = cluster_sorted gap (sort_by starts_before spans)

-- The masses are sums of natural numbers, which floating point adds without loss up to 2 ^ 53.
pub record AttributionLedger : Type 0 where
  pub artifact_hash : String
  pub total_suspicion_mass : ℕ
  pub attributed_mass : ℕ
  pub excluded_mass : ℕ
  pub residue_mass : ℕ
  pub coverage_ratio : Fraction
  pub attributed_spans : List Span
  pub excluded_spans : List Span
  pub residue_spans : List Span
  pub residue_clusters : List ResidueCluster
  pub exclusion_records : List ExclusionRecord

-- `verify_invariant`: natural numbers differ by less than 1e-6 when they are equal.
unfoldable pub verify_invariant : AttributionLedger → Bool
verify_invariant l = l.attributed_mass + l.excluded_mass + l.residue_mass == l.total_suspicion_mass

abbrev pub given_or : String → Option String → String
given_or default none = default
given_or default (some hash) = hash

-- `compute_ledger` up to its assertion.
unfoldable pub build_ledger :
    Library → Bytes → List Span → List Span → Option String → AttributionLedger
build_ledger lib content findings suspicions hash =
    let artifact = given_or (lib.sha256 content) hash in
    let total = mass suspicions in
    let claims = attribute_claims findings suspicions in
    let exclusions = evaluate_exclusions lib content claims.unclaimed in
    let attributed = mass claims.attributed in
    record {
      artifact_hash = artifact;
      total_suspicion_mass = total;
      attributed_mass = attributed;
      excluded_mass = mass exclusions.excluded;
      residue_mass = mass exclusions.residue;
      coverage_ratio =
          if ltb 0 total
          then record { num = attributed; den = total }
          else record { num = 1; den = 1 };
      attributed_spans = claims.attributed;
      excluded_spans = exclusions.excluded;
      residue_spans = exclusions.residue;
      residue_clusters = cluster_residue_spans lib content artifact 32 exclusions.residue;
      exclusion_records = exclusions.records;
    }

-- `compute_ledger`; none is its assertion's failure.
unfoldable pub compute_ledger :
    Library → Bytes → List Span → List Span → Option String → Option AttributionLedger
compute_ledger lib content findings suspicions hash =
    let ledger = build_ledger lib content findings suspicions hash in
    if verify_invariant ledger then some ledger else none
