-- ===== src/Intake.antt =====
-- Command intake: domain/src/ports/command-inbox.ts, its in-memory implementation and
-- application/src/intake/dispatch-command.ts.
pub mod Inbox
pub mod Once
