-- ===== src/Attribution/Ledger/Conservation.antt =====
-- The conservation invariant of the ledger.
use sih.Prelude.Bytes.{Bytes}
