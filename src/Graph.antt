-- ===== src/Graph.antt =====
-- The estate graph of a scan (backend/api/graph.py): the system, its files and their findings.
pub mod Counts
pub mod Worst
mod Tests
use sih.Prelude.{
  ℕ, ◌+◌, ◌*◌, ◌≡◌, Bool, true, false, Option, none, some, String, List, [], ◌∷◌, ◌++◌, map, length,
  ltb, if◌then◌else◌,
}
use sih.Prelude.Text.{str_eq, codes}
use sih.Prelude.Sort.{sort_by}
use sih.Model.{Finding, Risk, RiskBand, band_rank, Fraction}
use sih.Findings.{text_leb}

pub data GraphNodeType : Type 0 where
  system file asset : GraphNodeType

pub record GraphNode : Type 0 where
  pub id : String
  pub type : GraphNodeType
  pub label : String
  pub band : Option RiskBand
  pub score : Option Fraction
  pub occurrences : ℕ
  pub parent_id : Option String

pub record GraphEdge : Type 0 where
  pub source : String
  pub target : String

pub record Graph : Type 0 where
  pub nodes : List GraphNode
  pub edges : List GraphEdge

-- `max` keeps the first of equal entries.
unfoldable pub worse : RiskBand → RiskBand → RiskBand
worse a b = if ltb (band_rank a) (band_rank b) then b else a

unfoldable pub worst_from : RiskBand → List RiskBand → RiskBand
worst_from b [] = b
worst_from b (c ∷ bs) = worst_from (worse b c) bs

-- `_worst_band`
unfoldable pub worst_band : List RiskBand → Option RiskBand
worst_band [] = none
worst_band (b ∷ bs) = some (worst_from b bs)

unfoldable pub higher : Fraction → Fraction → Fraction
higher p q = if ltb (p.num * q.den) (q.num * p.den) then q else p

unfoldable pub highest_from : Fraction → List Fraction → Fraction
highest_from p [] = p
highest_from p (q ∷ qs) = highest_from (higher p q) qs

-- `max(scores) if scores else None`
unfoldable pub highest_score : List Fraction → Option Fraction
highest_score [] = none
highest_score (p ∷ ps) = some (highest_from p ps)

-- `[f.risk for f in findings if f.risk is not None]`
unfoldable pub risks_of : List Finding → List Risk
risks_of [] = []
risks_of (f ∷ fs) = let rest = risks_of fs in elim f.risk [ none ↦ rest | some r ↦ r ∷ rest ]

-- `files`: the findings of each path, in order.
abbrev pub Files : Type 0
Files = List (String × List Finding)

-- `files.setdefault(f.location.path, []).append(f)`
unfoldable pub file_finding : Finding → Files → Files
file_finding f [] = (f.location.path, f ∷ []) ∷ []
file_finding f ((p, fs) ∷ rest) =
    let filed = file_finding f rest in
    if str_eq p f.location.path then (p, fs ++ f ∷ []) ∷ rest else (p, fs) ∷ filed

unfoldable pub files_from : Files → List Finding → Files
files_from files [] = files
files_from files (f ∷ fs) = files_from (file_finding f files) fs

-- The paths differ, so the order of the items is that of the paths.
unfoldable pub path_leb : String × List Finding → String × List Finding → Bool
path_leb a b = text_leb (codes a.0) (codes b.0)

-- `file_node_id` is `_file_node_id`, a prefix of the SHA-256 of the path.
module _ (file_node_id : String → String) where
  abbrev pub root_id : String
  root_id = "sys_root"

  unfoldable pub root_node : String → List Finding → GraphNode
  root_node target fs = record {
    id = root_id;
    type = system;
    label = target;
    band = worst_band (map (λ r. r.band) (risks_of fs));
    score = highest_score (map (λ r. r.score) (risks_of fs));
    occurrences = length fs;
    parent_id = none;
  }

  unfoldable pub file_node : String × List Finding → GraphNode
  file_node (path, fs) = record {
    id = file_node_id path;
    type = file;
    label = path;
    band = worst_band (map (λ r. r.band) (risks_of fs));
    score = highest_score (map (λ r. r.score) (risks_of fs));
    occurrences = length fs;
    parent_id = some root_id;
  }

  abbrev pub of_risk : {A : Type 0} → (Risk → A) → Option Risk → Option A
  of_risk part none = none
  of_risk part (some r) = some (part r)

  unfoldable pub asset_node : String → Finding → GraphNode
  asset_node file_id f = record {
    id = f.id;
    type = asset;
    label = f.display_name;
    band = of_risk (λ r. r.band) f.risk;
    score = of_risk (λ r. r.score) f.risk;
    occurrences = 1;
    parent_id = some file_id;
  }

  abbrev pub asset_edge : String → Finding → GraphEdge
  asset_edge file_id f = record { source = file_id; target = f.id }

  abbrev pub file_edge : String × List Finding → GraphEdge
  file_edge e = record { source = root_id; target = file_node_id e.0 }

  -- The loop over the files.
  unfoldable pub file_nodes : Files → List GraphNode
  file_nodes [] = []
  file_nodes (e ∷ files) = file_node e ∷ map (asset_node (file_node_id e.0)) e.1 ++ file_nodes files

  unfoldable pub file_edges : Files → List GraphEdge
  file_edges [] = []
  file_edges (e ∷ files) = file_edge e ∷ map (asset_edge (file_node_id e.0)) e.1 ++ file_edges files

  unfoldable pub build_graph : String → List Finding → Graph
  build_graph target fs =
      let files = sort_by path_leb (files_from [] fs) in
      record { nodes = root_node target fs ∷ file_nodes files; edges = file_edges files }
