-- ===== src/Residue/Tests.antt =====
-- Runs of the residue clusters, and their theorems at a concrete store.
use sih.Prelude.{ℕ, ◌≡◌, refl, ◌⊎◌, Option, none, some, String, [], ◌∷◌, map, arith}
use sih.Prelude.Bytes.{Bytes}
use sih.Prelude.Text.{codes}
use sih.Audit.{verify_audit_log_integrity}
use sih.Audit.Toy.{toy, toy_width}
use sih.Residue.{
  ResidueClusterState, is_open, promoted, excluded, accepted, is_excluded, ResidueClusterRecord,
  ResidueClusterPatch, CoverageCertificate, ArtifactCoverage, Store, patch_route, save_coverage,
  get_coverage_certificate, get_artifact_coverages, of_scan,
}
use sih.Residue.Rows.{StaysPromoted}
use sih.Residue.States.{IsChange, patch_route_lem}
use sih.Residue.Merge.{save_coverage_stores}
use sih.Residue.Reach.{request, Reach, here, then_step, IsValid, Reach-keeps}

abbrev cluster : String → ResidueClusterState → ResidueClusterRecord
cluster id state = record {
  id = id;
  content_hash = id;
  signal_types = "framing.asn1_der" ∷ [];
  magnitude = 40;
  occurrences = record { artifact_hash = "a"; path = "app.bin"; range = 0 ∷ 40 ∷ [] } ∷ [];
  state = state;
  justification = none;
  owner = none;
  target_id = none;
  first_seen = 1;
  last_seen = 1;
}

abbrev state_code : ResidueClusterState → ℕ
state_code is_open = 0
state_code promoted = 1
state_code excluded = 2
state_code accepted = 3

abbrev transition : ResidueClusterState → ResidueClusterState → Option Bytes → Option Bytes → Bytes
transition before after owner justification = state_code before ∷ state_code after ∷ []

abbrev coverage : CoverageCertificate → Bytes
coverage c = c.total_mass ∷ c.residue_mass ∷ []

abbrev exclude : ResidueClusterPatch
exclude = record {
  state = excluded;
  justification = some (codes "test data");
  owner = some (codes "ops");
}

abbrev reopen : ResidueClusterPatch
reopen = record { state = is_open; justification = none; owner = none }

abbrev store : Store toy
store = record {
  rows = cluster "c1" is_open ∷ cluster "c2" promoted ∷ [];
  certificates = [];
  artifacts = [];
  log = [];
}

abbrev certificate : CoverageCertificate
certificate = record {
  scan_id = "";
  artifact_count = 1;
  total_mass = 40;
  attributed_mass = 0;
  excluded_mass = 0;
  residue_mass = 40;
  coverage_ratio = record { num = 0; den = 40 };
  residue_cluster_count = 1;
  computed_at = 5;
}

abbrev artifact : ArtifactCoverage
artifact = record {
  scan_id = "";
  artifact_hash = "a";
  path = "app.bin";
  total_mass = 40;
  attributed = 0;
  excluded_mass = 0;
  residue = 40;
  coverage_ratio = record { num = 0; den = 40 };
}

store-IsValid : IsValid toy transition coverage store
unfolding verify_audit_log_integrity is_excluded
store-IsValid = record {
  keyed = ((refl, tt), (tt, tt));
  justified = ((λ e. ground arith), ((λ e. ground arith), tt));
  log_intact = refl;
}

abbrev after_exclusion : Store toy
after_exclusion = (patch_route toy transition (codes "ops") 7 "c1" exclude store).1

abbrev after_reopening : Store toy
after_reopening = (patch_route toy transition (codes "ops") 8 "c2" reopen after_exclusion).1

two_requests : Reach toy transition coverage store after_reopening
two_requests =
    then_step (then_step here (request (codes "ops") 7 "c1" exclude store))
      (request (codes "ops") 8 "c2" reopen after_exclusion)

patch_route_lem_example :
    let o = patch_route toy transition (codes "ops") 7 "c1" exclude store in
    (o.1 ≡ store) ⊎ IsChange toy transition (codes "ops") 7 "c1" exclude store o
patch_route_lem_example = patch_route_lem toy transition (codes "ops") 7 "c1" exclude store

Reach-keeps_example :
    IsValid toy transition coverage after_reopening × StaysPromoted store.rows after_reopening.rows
Reach-keeps_example = Reach-keeps toy transition coverage toy_width two_requests store-IsValid

save_coverage_stores_run :
    let st' =
      save_coverage toy coverage
        (codes "ops")
        9
        "s1"
        certificate
        (artifact ∷ [])
        (cluster "c1" is_open ∷ [])
        none
        store in
    (get_coverage_certificate "s1" st'.certificates ≡ some (record certificate { scan_id = "s1" }))
    × (get_artifact_coverages "s1" st'.artifacts ≡ map (of_scan "s1") (artifact ∷ []))
save_coverage_stores_run =
    save_coverage_stores toy coverage (codes "ops") 9 "s1" certificate (artifact ∷ [])
      (cluster "c1" is_open ∷ []) none store
