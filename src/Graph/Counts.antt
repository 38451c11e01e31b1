-- ===== src/Graph/Counts.antt =====
-- The shape of the graph: one edge into every node but the root, and nothing lost.
use sih.Prelude.{ℕ, ◌≡◌, some, List, [], ◌∷◌, length, sum_by}
use sih.Graph.{GraphNode, GraphEdge, Files}

abbrev pub filed : Files → ℕ
filed = sum_by (λ e. length e.1)

-- A node's edge: from its parent to it.
abbrev pub ParentEdges : List GraphNode → List GraphEdge → Type 0
ParentEdges [] [] = Unit
ParentEdges [] (e ∷ es) = ⊥
ParentEdges (n ∷ ns) [] = ⊥
ParentEdges (n ∷ ns) (e ∷ es) =
    ((n.parent_id ≡ some e.source) × (n.id ≡ e.target)) × ParentEdges ns es
