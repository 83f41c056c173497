-- ===== src/State.antt =====
-- packages/domain/src/state, but for the kernel's commands.
pub mod Clock
pub mod Rows
pub mod Intervention
pub mod Events
pub mod Replay
pub mod Apply
pub mod Payload
pub mod History
