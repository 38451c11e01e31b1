-- ===== src/Debt/Tests.antt =====
-- Runs of the debt ledger.
use sih.Prelude.Bytes.{Bytes}
