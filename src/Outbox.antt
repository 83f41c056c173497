-- ===== src/Outbox.antt =====
-- packages/bridge-daemon/src/outbox: what a device has captured and the service has not taken in.
pub mod Store
pub mod Backoff
pub mod Sound
pub mod Calls
pub mod Upload
pub mod Kept
