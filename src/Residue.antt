-- ===== src/Residue.antt =====
-- The clusters of residue that the API keeps (backend/api/models.py, backend/api/store.py,
-- backend/api/routes/residue.py): how a cluster is looked up, changed and merged.
pub mod Rows
pub mod States
pub mod Merge
pub mod Reach
mod Tests
use sih.Prelude.{
  ℕ, ◌≡◌, Bool, true, false, not, ◌&&◌, ◌||◌, Option, none, some, String, List, [], ◌∷◌, ◌++◌, map,
  any, all, keep, find?, leb, ◌==◌, if◌then◌else◌,
}
use sih.Prelude.Text.{str_eq, codes}
use sih.Prelude.Bytes.{Bytes, is_str_space, bytes_eq}
use sih.Model.Findings.{Fraction}
use sih.Audit.{Hashing, Record, Entry, log_audit}

-- `ResidueClusterState`
pub data ResidueClusterState : Type 0 where
  is_open promoted excluded accepted : ResidueClusterState

unfoldable pub is_promoted : ResidueClusterState → Bool
is_promoted is_open = false
is_promoted promoted = true
is_promoted excluded = false
is_promoted accepted = false

unfoldable pub is_excluded : ResidueClusterState → Bool
is_excluded is_open = false
is_excluded promoted = false
is_excluded excluded = true
is_excluded accepted = false

-- `ResidueOccurrence`
pub record ResidueOccurrence : Type 0 where
  pub artifact_hash : String
  pub path : String
  pub range : List ℕ

-- `ResidueClusterRecord`; `ResidueCluster` has the same fields less the target. A text that is
-- tested for being blank is the list of its code points.
pub record ResidueClusterRecord : Type 0 where
  pub id : String
  pub content_hash : String
  pub signal_types : List String
  pub magnitude : ℕ
  pub occurrences : List ResidueOccurrence
  pub state : ResidueClusterState
  pub justification : Option Bytes
  pub owner : Option Bytes
  pub target_id : Option String
  pub first_seen : ℕ
  pub last_seen : ℕ

pub record ResidueClusterPatch : Type 0 where
  pub state : ResidueClusterState
  pub justification : Option Bytes
  pub owner : Option Bytes

-- `not text or not text.strip()`
unfoldable pub is_blank : Option Bytes → Bool
is_blank none = true
is_blank (some text) = all is_str_space text

-- `session.get(…, cluster_id)`, else the first row with that content hash.
unfoldable pub locate : String → List ResidueClusterRecord → Option ResidueClusterRecord
locate cluster_id rows = elim (find? (λ r. str_eq r.id cluster_id) rows) [
  | none ↦ find? (λ r. str_eq r.content_hash cluster_id) rows
  | some r ↦ some r
]

-- `if patch.… is not None: rec.… = patch.…`
unfoldable pub given_or : Option Bytes → Option Bytes → Option Bytes
given_or none old = old
given_or (some new) old = some new

-- The assignments to `rec` in `store.patch_residue_cluster`.
unfoldable pub patched : ℕ → ResidueClusterPatch → ResidueClusterRecord → ResidueClusterRecord
patched now p r = record r {
  state = p.state;
  justification = given_or p.justification r.justification;
  owner = given_or p.owner r.owner;
  last_seen = now;
}

-- `UPDATE … WHERE id = rec.id`
unfoldable pub save_row :
    ResidueClusterRecord → List ResidueClusterRecord → List ResidueClusterRecord
save_row new [] = []
save_row new (r ∷ rows) = (if str_eq r.id new.id then new else r) ∷ save_row new rows

-- `CoverageCertificate` and `ArtifactCoverage`, of one scan.
pub record CoverageCertificate : Type 0 where
  pub scan_id : String
  pub artifact_count : ℕ
  pub total_mass : ℕ
  pub attributed_mass : ℕ
  pub excluded_mass : ℕ
  pub residue_mass : ℕ
  pub coverage_ratio : Fraction
  pub residue_cluster_count : ℕ
  pub computed_at : ℕ

pub record ArtifactCoverage : Type 0 where
  pub scan_id : String
  pub artifact_hash : String
  pub path : String
  pub total_mass : ℕ
  pub attributed : ℕ
  pub excluded_mass : ℕ
  pub residue : ℕ
  pub coverage_ratio : Fraction

-- The answers of the route: the cluster, or an error with its status.
pub data Reply : Type 0 where
  ok : ResidueClusterRecord → Reply
  not_found : Reply
  needs_justification needs_owner already_promoted : Reply

module _ (h : Hashing) where
  pub record Store : Type 0 where
    pub rows : List ResidueClusterRecord
    pub certificates : List CoverageCertificate
    pub artifacts : List ArtifactCoverage
    pub log : List (Record h)

  -- `detail` is the JSON object `{"from": …, "to": …, "owner": …, "justification": …}`, `current`
  -- the actor and `now` the time of the request.
  module _
      (detail : ResidueClusterState → ResidueClusterState → Option Bytes → Option Bytes → h.Detail)
      (current : Bytes) (now : ℕ) where
    unfoldable pub transition_entry : ResidueClusterRecord → ResidueClusterRecord → Entry h.Detail
    transition_entry old new = record {
      actor = none;
      action = codes "residue.transition";
      entity_type = codes "residue_cluster";
      entity_id = codes new.id;
      detail = some (detail old.state new.state new.owner new.justification);
    }

    -- `store.patch_residue_cluster`
    unfoldable pub patch_residue_cluster :
        String → ResidueClusterPatch → Store → Option ResidueClusterRecord × Store
    patch_residue_cluster cluster_id p st = elim (locate cluster_id st.rows) [
      | none ↦ (none, st)
      | some r ↦
          let new = patched now p r in
          (
            some new,
            record st {
              rows = save_row new st.rows;
              log = log_audit h current (transition_entry r new) st.log;
            },
          )
    ]

    -- The last lines of the route: `if cluster is None: raise …; return cluster`.
    unfoldable pub reply_with : Option ResidueClusterRecord × Store → Reply × Store
    reply_with (none, st) = (not_found, st)
    reply_with (some r, st) = (ok r, st)

    -- The checks of the route on a cluster that exists, and the change.
    unfoldable pub patch_existing :
        String → ResidueClusterPatch → ResidueClusterRecord → Store → Reply × Store
    unfolding reply_with
    patch_existing cluster_id p existing st =
        if is_excluded p.state && is_blank p.justification
        then (needs_justification, st)
        else if is_excluded p.state && is_blank p.owner
        then (needs_owner, st)
        else if is_promoted existing.state && not (is_promoted p.state)
        then (already_promoted, st)
        else reply_with (patch_residue_cluster cluster_id p st)

    -- `PATCH /residue/{id}`
    unfoldable pub patch_route : String → ResidueClusterPatch → Store → Reply × Store
    patch_route cluster_id p st = elim (locate cluster_id st.rows) [
      | none ↦ (not_found, st)
      | some existing ↦ patch_existing cluster_id p existing st
    ]

-- The keys of `occ_map`, which are all of an occurrence.
unfoldable pub same_occurrence : ResidueOccurrence → ResidueOccurrence → Bool
same_occurrence a b =
    str_eq a.artifact_hash b.artifact_hash && (str_eq a.path b.path && bytes_eq a.range b.range)

-- `occ_map[key] = occ`: a key that is there keeps its place.
unfoldable pub put_occurrence : ResidueOccurrence → List ResidueOccurrence → List ResidueOccurrence
put_occurrence o os = if any (same_occurrence o) os then os else os ++ o ∷ []

-- Occurrences put into the map one after the other.
unfoldable pub put_occurrences :
    List ResidueOccurrence → List ResidueOccurrence → List ResidueOccurrence
put_occurrences [] os = os
put_occurrences (o ∷ new) os = put_occurrences new (put_occurrence o os)

-- `if target_id and not existing_cluster.target_id`
unfoldable pub adopt_target : Option String → Option String → Option String
adopt_target none old = old
adopt_target (some new) none = if str_eq new "" then none else some new
adopt_target (some new) (some old) =
    if str_eq old "" && not (str_eq new "") then some new else some old

-- The row of a cluster that is known, merged with the cluster that is seen again.
unfoldable pub merged :
    ℕ → Option String → ResidueClusterRecord → ResidueClusterRecord → ResidueClusterRecord
merged now target c r = record r {
  occurrences = put_occurrences c.occurrences (put_occurrences r.occurrences []);
  last_seen = now;
  target_id = adopt_target target r.target_id;
}

-- The body of the loop over `clusters` in `store.save_coverage`.
unfoldable pub upsert_cluster :
    ℕ → Option String → ResidueClusterRecord → List ResidueClusterRecord → List ResidueClusterRecord
upsert_cluster now target c rows =
    elim (find? (λ r. str_eq r.id c.id || str_eq r.content_hash c.content_hash) rows) [
      | none ↦ rows ++ record c { target_id = target } ∷ []
      | some r ↦ save_row (merged now target c r) rows
    ]

unfoldable pub upsert_clusters :
    ℕ
    → Option String
    → List ResidueClusterRecord
    → List ResidueClusterRecord
    → List ResidueClusterRecord
upsert_clusters now target [] rows = rows
upsert_clusters now target (c ∷ cs) rows =
    upsert_clusters now target cs (upsert_cluster now target c rows)

unfoldable pub get_coverage_certificate :
    String → List CoverageCertificate → Option CoverageCertificate
get_coverage_certificate scan_id = find? (λ c. str_eq c.scan_id scan_id)

unfoldable pub get_artifact_coverages : String → List ArtifactCoverage → List ArtifactCoverage
get_artifact_coverages scan_id = keep (λ a. str_eq a.scan_id scan_id)

abbrev pub of_scan : String → ArtifactCoverage → ArtifactCoverage
of_scan scan_id a = record a { scan_id = scan_id }

module _ (h : Hashing) (detail : CoverageCertificate → h.Detail) (current : Bytes) (now : ℕ) where
  unfoldable pub coverage_entry : CoverageCertificate → Entry h.Detail
  coverage_entry cert = record {
    actor = none;
    action = codes "coverage.record";
    entity_type = codes "coverage_certificate";
    entity_id = codes cert.scan_id;
    detail = some (detail cert);
  }

  -- `store.save_coverage`
  unfoldable pub save_coverage :
      String
      → CoverageCertificate
      → List ArtifactCoverage
      → List ResidueClusterRecord
      → Option String
      → Store h
      → Store h
  save_coverage scan_id given artifacts clusters target st =
      let cert = record given { scan_id = scan_id } in
      record {
        rows = upsert_clusters now target clusters st.rows;
        certificates = keep (λ c. not (str_eq c.scan_id scan_id)) st.certificates ++ cert ∷ [];
        artifacts =
            keep (λ a. not (str_eq a.scan_id scan_id)) st.artifacts
            ++ map (of_scan scan_id) artifacts;
        log = log_audit h current (coverage_entry cert) st.log;
      }
