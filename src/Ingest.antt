-- ===== src/Ingest.antt =====
-- application/src/ingest: a batch of work events on its way into the ledger.
pub mod Batch
pub mod Flow
pub mod Resend
pub mod Outcomes
pub mod Stored
