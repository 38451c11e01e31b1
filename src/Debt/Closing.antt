-- ===== src/Debt/Closing.antt =====
-- Closing a cluster, and what the ledger shows of it.
use sih.Prelude.Bytes.{Bytes}
