-- ===== src/Scenarios.antt =====
-- Runs of the kernel on concrete commands, and the theorems at them.
pub mod Base
pub mod Kernels
pub mod Parts
pub mod Runs
pub mod State
pub mod Ledgers
pub mod Devices
pub mod Transport
