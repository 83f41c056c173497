-- ===== src/Wire.antt =====
-- packages/contracts/src: what crosses the boundary between the daemon and the service.
pub mod WorkEvent
pub mod Again
pub mod Additive
pub mod Roundtrip
pub mod Receipt
pub mod Coherent
