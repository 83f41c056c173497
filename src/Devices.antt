-- ===== src/Devices.antt =====
-- Device authorization: domain/src/ports/device-auth.ts, its in-memory implementation and
-- application/src/auth/device-auth-flow.ts.
pub mod Store
pub mod Flow
pub mod Revoked
pub mod Final
pub mod Spent
