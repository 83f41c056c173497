-- ===== src/Ledger.antt =====
-- The event ledger: the port of domain/src/ports/event-store.ts and its in-memory implementation.
pub mod Envelope
pub mod Store
pub mod Sound
pub mod Calls
