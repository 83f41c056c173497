-- ===== src/Schema.antt =====
-- packages/domain/src/schema and packages/domain/src/errors.
pub mod Vocabulary
pub mod Ledgers
pub mod Platform
pub mod Ids
pub mod Errors
pub mod Asset
pub mod WorkRun
pub mod Canonical
