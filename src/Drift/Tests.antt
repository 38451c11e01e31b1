-- ===== src/Drift/Tests.antt =====
-- Runs of the drift of two scans.
use sih.Prelude.{◌≡◌, not, ◌&&◌, none, some, List, [], ◌∷◌, map}
use sih.Prelude.Int.{pos}
use sih.Model.Scans.{ScanSnapshot}
use sih.Model.{Finding, low}
use sih.Model.Samples.{sample_snapshot, sample_finding, sample_risk}
use sih.Drift.{finding_identity, index, lookup, drift_between}
use sih.Drift.Keys.{mentions}
use sih.Drift.Changes.{IsDistinct, differ, drift_between_lem}
use sih.Drift.Same.{drift_between_self}

abbrev first : ScanSnapshot
first = sample_snapshot

abbrev second : ScanSnapshot
second = record first { id = "b"; scan_id = "s2" }

abbrev moved : Finding
moved = record sample_finding {
  location = record { path = "core/keys.py"; line = some 9; offset = none; layer = none };
}

abbrev lowered : Finding
lowered = record sample_finding { risk = some (record sample_risk { band = low }) }

abbrev old : List Finding
old = sample_finding ∷ []

abbrev new : List Finding
new = lowered ∷ moved ∷ []

drift_between_lem_example :
    let d = drift_between first second old new in
    let k = finding_identity moved in
    (mentions k d.added ≡ (mentions k new && not (mentions k old)))
    × (mentions k d.resolved ≡ (mentions k old && not (mentions k new)))
    × (mentions k (map (λ c. c.finding) d.changed)
        ≡ differ (lookup k (index old)) (lookup k (index new)))
    × IsDistinct d.added
    × IsDistinct d.resolved
drift_between_lem_example = drift_between_lem first second old new (finding_identity moved)

same_scan_run :
    let d = drift_between first second new new in
    (d.added ≡ []) × (d.resolved ≡ []) × (d.changed ≡ []) × (d.summary.net_risk_delta.num ≡ pos 0)
same_scan_run = drift_between_self first second new
