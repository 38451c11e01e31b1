-- ===== src/Residue/Reach.antt =====
-- The life of the residue clusters: any sequence of requests and scans.
use sih.Prelude.{◌∙◌, ℕ, ◌≡◌, Option, String, List, All}
use sih.Prelude.Bytes.{Bytes}
use sih.Audit.{Hashing, intact, verify_audit_log_integrity}
use sih.Audit.Chain.{HasWidth}
use sih.Residue.{
  ResidueClusterState, ResidueClusterRecord, ResidueClusterPatch, CoverageCertificate,
  ArtifactCoverage, Store, patch_route, save_coverage,
}
use sih.Residue.Rows.{IsKeyed, IsJustified, StaysPromoted, StaysPromoted-refl, StaysPromoted-trans}
use sih.Residue.States.{patch_route-intact, patch_route_keeps}
use sih.Residue.Merge.{save_coverage_keeps}

module _ (h : Hashing)
    (transition : ResidueClusterState
      → ResidueClusterState
      → Option Bytes
      → Option Bytes
      → h.Detail)
    (coverage : CoverageCertificate → h.Detail) where
  -- A request for one cluster, or a scan whose clusters are justified (a scan's are open).
  pub data Step : Store h → Store h → Type 0 where
    request :
        (current : Bytes) (now : ℕ) (cluster_id : String) (p : ResidueClusterPatch) (st : Store h)
        → Step st (patch_route h transition current now cluster_id p st).1
    scan :
        (current : Bytes) (now : ℕ) (scan_id : String) (cert : CoverageCertificate)
        (arts : List ArtifactCoverage) (cs : List ResidueClusterRecord) (target : Option String)
        (st : Store h)
        → All IsJustified cs
        → Step st (save_coverage h coverage current now scan_id cert arts cs target st)

  pub data Reach (first : Store h) : Store h → Type 0 where
    here : Reach first first
    then_step : {a b : Store h} → Reach first a → Step a b → Reach first b

  -- Keyed rows, justified exclusions and an intact audit log.
  pub record IsValid (st : Store h) : Type 0 where
    pub keyed : IsKeyed st.rows
    pub justified : All IsJustified st.rows
    pub log_intact : verify_audit_log_integrity h st.log ≡ intact

  Step-keeps :
      HasWidth h → {a b : Store h} → Step a b → IsValid a → IsValid b × StaysPromoted a.rows b.rows
  Step-keeps w (request current now cluster_id p a) v =
      let (k, s, j) = patch_route_keeps h transition current now cluster_id p a v.keyed in
      (
        record {
          keyed = k;
          justified = j v.justified;
          log_intact = patch_route-intact h transition current now w cluster_id p a v.log_intact;
        },
        s,
      )
  Step-keeps w (scan current now scan_id cert arts cs target a x) v =
      let ((k, s, j), l) =
        save_coverage_keeps h coverage current now w scan_id cert arts cs target a x v.keyed in
      (record { keyed = k; justified = j v.justified; log_intact = l ∙ v.log_intact }, s)

  -- Whatever requests and scans follow on a valid store: the store stays valid (its rows keyed,
  -- every exclusion justified by an owner, the audit log intact), no cluster disappears, and one
  -- that was promoted is promoted for good.
  pub Reach-keeps :
      HasWidth h
      → {first last : Store h} → Reach first last
      → IsValid first
      → IsValid last × StaysPromoted first.rows last.rows
  Reach-keeps w {first} here v = (v, StaysPromoted-refl first.rows)
  Reach-keeps w {first} {last} (then_step {a} r s) v =
      let (va, pa) = Reach-keeps w r v in
      let (vb, pb) = Step-keeps w s va in
      (vb, StaysPromoted-trans first.rows a.rows last.rows pa pb)
