-- ===== src/Kernel.antt =====
-- state/project-state-kernel.ts: the commands of the kernel and what holds of them.
pub mod Core
pub mod Log
pub mod Sound
pub mod Project
pub mod Work
pub mod Asset
pub mod Hold
pub mod Effect
pub mod Delivery
pub mod Direction
pub mod Equip
pub mod Return
pub mod Run
pub mod Intervention
