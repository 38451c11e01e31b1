-- ===== src/Graph/Tests.antt =====
-- Runs of the estate graph.
use sih.Prelude.{none, String, List, [], ◌∷◌, map}
use sih.Model.{Finding}
use sih.Model.Samples.{sample_finding}
use sih.Graph.{root_node, risks_of}
use sih.Graph.Worst.{HasWorst, root_band_lem}

abbrev file_id : String → String
file_id path = path

abbrev findings : List Finding
findings =
    sample_finding
    ∷ record sample_finding {
      id = "f2";
      location = record { path = "app.py"; line = none; offset = none; layer = none };
    }
    ∷ []

root_band_lem_run :
    HasWorst (map (λ r. r.band) (risks_of findings)) (root_node file_id "estate" findings).band
root_band_lem_run = root_band_lem file_id "estate" findings
