-- ===== src/Lib.antt =====
-- ECDAT, a scanner that inventories the cryptography of an estate, scores its quantum risk and
-- accounts for what it could not explain. These modules model the Python backend.
--
-- Parts and how they interact. Detectors (not modelled) report detections; `engine/factors.py`
-- derives a risk from each under a policy, with the formula of `engine/risk.py`, and
-- `engine/recommend.py` names the migration. Findings are stored as rows by `api/db.py`, and
-- `api/store.py` rescores them in bulk under another horizon. Beside the findings, the attribution
-- calculus of `engine/attribute` splits the crypto mass of an artifact into attributed, excluded
-- and residue. `engine/ingest.py` and `engine/firmware.py` let archives in, `engine/extract` finds
-- spans in their files, and `scheduler/engine.py` and `api/routes/scans.py` run a scan from its
-- target to its findings, snapshot and alerts; `probes/reconciler.py` marks the findings that a
-- handshake has negotiated. Every change of the store is written to the audit log of `api/db.py`, and the API
-- is behind the limiter of `api/rate_limiter.py`.
--
--   Prelude      Boolean tests, lists measured by native numbers, integers, byte strings, sorting.
--   Audit        backend/api/db.py: compute_audit_record_hash, log_audit,
--                verify_audit_log_integrity. The table is the list of its rows by id; SHA-256 and
--                the JSON text are parameters (`Hashing`). Audit/Toy has instances to run with.
--   RateLimiter  backend/api/rate_limiter.py: SlidingWindowRateLimiter. A deque is a list, the
--                dictionary of clients an association list, and times are ticks of a clock that
--                never runs back.
--   Model        backend/api/models.py and backend/engine/models.py: the data types.
--   Risk         backend/engine/risk.py, families.py, factors.py, pqc.py and recommend.py. Scores
--                and urgencies are exact fractions and weights are hundredths, where the source
--                has floating point; `none` is a division by a horizon of 0.
--   Database     backend/api/db.py (finding_to_record, record_to_finding) and rescore_scan_findings
--                of backend/api/store.py, whose SQL is written out: NULL is `none`.
--   Attribution  backend/engine/models.py (Span), backend/engine/attribute/claim.py, exclude.py
--                and ledger.py. Magnitudes are natural numbers. SHA-256, Base64 and UTF-8 decoding
--                and the test for printable characters are parameters (`Library`).
--   Findings     backend/api/filtering.py: filters, order, counts and pages. Python's sort is a
--                stable insertion; str.lower is a parameter.
--   Residue      backend/api/routes/residue.py and patch_residue_cluster, save_coverage,
--                get_coverage_certificate, get_artifact_coverages of backend/api/store.py. Requests
--                and scans are the steps of Residue/Reach.
--   Drift        backend/api/store.py: _finding_identity, calculate_drift. A dictionary is the list
--                of its entries in order.
--   Gate         backend/api/size_limiter.py, auth.py, actor.py, the dispatch of rate_limiter.py and
--                backend/probes/guard.py. The environment is an argument.
--   Graph        backend/api/graph.py: build_graph.
--   Estate       backend/api/store.py: recover_interrupted_scans, get_estate_coverage and the
--                changes of targets.
--   Debt         backend/engine/debt.py: the records of closed clusters and their file.
--   Policies     backend/api/store.py: resolve_policy.
--   Alerts       backend/api/alerts/rules.py and dispatcher.py, create_alert of backend/api/store.py.
--                Messages are left out; a call of the webhook is an entry of the list `sent`.
--   Scans        backend/api/store.py: create_initial_scan, create_scan_from_result, create_snapshot,
--                list_events, count_findings, list_findings_page, get_finding, replace_finding;
--                backend/api/routes/scans.py and findings.py; and
--                execute_target_scan of backend/scheduler/engine.py. The run of the scanner, the
--                digests of files and the ids that are drawn are parameters.
--   Firmware     backend/engine/firmware.py. Offsets and sizes are integers, since `int(text, 16)`
--                reads a sign.
--   Ingest       backend/engine/ingest.py on a POSIX system. Paths are lists of components; zipfile
--                and tarfile give the entries. The limits are those of the source.
--   Reconcile    backend/probes/reconciler.py: reconcile_probe_findings and its tokens.
--   Extract      backend/engine/extract. Prelude/Regex matches the patterns, which Extract/Patterns
--                writes out; the logarithm and Base64 decoding are parameters, and entropies are
--                compared without rounding, in millionths.
--
-- Bounds and fuel. Where the source has a `while` loop over positions (Firmware, Extract/Tables,
-- Extract/Framing), the model has fuel, one round more than the artifact has bytes; that this is
-- enough is among the results. All other functions are structurally recursive. Natural numbers
-- are unbounded, as Python's integers are. The window of the limiter, its bound and the gap of
-- clusters are parameters of the theorems; the source uses 60 seconds and 32 bytes.
--
-- Not modelled: the detectors, which work on syntax trees; the network probes; the web framework;
-- the database driver; rounding in floating point beyond the `round` calls; reports, certificates
-- and exports, which are documents; the triggers of the scheduler, which is a library; operations
-- that read or write one row (policies, alerts, probe results, criticalities).
pub mod Prelude
pub mod Audit
pub mod RateLimiter
pub mod Model
pub mod Risk
pub mod Database
pub mod Attribution
pub mod Findings
pub mod Residue
pub mod Drift
pub mod Gate
pub mod Graph
pub mod Estate
pub mod Debt
pub mod Policies
pub mod Alerts
pub mod Firmware
pub mod Ingest
pub mod Extract
pub mod Scans
pub mod Reconcile
