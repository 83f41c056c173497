-- ===== src/Lib.antt =====
-- Navis: the project state kernel of packages/domain/src, an event-sourced aggregate, and the way of
-- events and commands to the ledger that it is recovered from. A kernel command
-- reads the live projection, refuses or appends one or more events to a gapless history, and each
-- append folds the event into the projection and advances the causal clock of its author. The
-- projection can be rebuilt from the log at any time, and a kernel recovered from it.
--
-- The parts and the files that model them:
-- - Schema: the vocabularies of schema/*.ts (Schema/Vocabulary, Schema/Ledgers), identifiers
--   (Schema/Ids), the rules of schema/asset.ts and schema/workrun.ts (Schema/Asset,
--   Schema/WorkRun), the errors of errors/*.ts (Schema/Errors). Schema/Platform holds what the
--   source takes from its platform and from zod: the test of an instant, of the length of a text,
--   `Date.parse`, SHA-256 and the length of encoded JSON. They are arguments of every definition
--   that uses them, and nothing is assumed of them.
-- - State: the clocks of state/vector-clock.ts (State/Clock), the rows of state/projection.ts
--   (State/Rows), state/intervention.ts (State/Intervention), the events of state/events.ts and
--   state/event-data.ts (State/Events, State/Payload), state/event-history.ts (State/History), and
--   `applyEvent` of state/project-state-kernel.ts (State/Apply and below it, a function for each
--   case). A fold returns the new projection or the fault that the source throws (State/Replay).
-- - Kernel: the commands of state/project-state-kernel.ts, one function each, by subject
--   (Kernel/Project, Work, Asset, Hold, Effect, Delivery, Direction, Equip, Return, Run,
--   Intervention) over the shared guards and `#append` (Kernel/Core), and the validation, the
--   rebuild and the recovery of a log (Kernel/Log). A command maps the kernel to its outcome (a
--   value, a refusal or a throw) and the kernel that is left, so that what was written before a
--   throw stays written. `uuidv7()` is an argument of the commands that draw identifiers.
-- - Kernel/Sound: the invariant that ties the log to the live projection, the rules by which a
--   chain of guards keeps it, and the kernels that sequences of commands reach.
-- - Ledger: the event store of domain/src/ports/event-store.ts as
--   infrastructure/src/persistence/in-memory/in-memory-event-store.ts implements it (Ledger/Envelope,
--   Ledger/Store), its invariant (Ledger/Sound) and sequences of its calls (Ledger/Calls).
-- - Wire: contracts/src/work-event.ts (Wire/WorkEvent) and the receipts of contracts/src/ingest.ts
--   (Wire/Receipt).
-- - Ingest: application/src/ingest/ingest-batch.ts: the validation of the events of a batch
--   (Ingest/Batch) and `ingestBatch` over the ledger (Ingest/Flow).
-- - Outbox: bridge-daemon/src/outbox: the tables of a device (Outbox/Store) and one round of the
--   upload loop (Outbox/Upload). A batch leaves the outbox by a receipt that the service gives from
--   the response of `ingestBatch`.
-- - Intake: the claims of commands and `dispatchCommand` (domain/src/ports/command-inbox.ts,
--   infrastructure/src/persistence/in-memory/in-memory-command-inbox.ts,
--   application/src/intake/dispatch-command.ts).
-- - Devices: the store of device codes, sessions, devices and keys (Devices/Store:
--   domain/src/ports/device-auth.ts,
--   infrastructure/src/persistence/in-memory/in-memory-device-auth.ts) and the flows over it
--   (Devices/Flow: application/src/auth/device-auth-flow.ts), whose drawn tokens are arguments.
-- - Scenarios: the theorems at concrete inputs.
--
-- Names are those of the source in snake case: `transitionHold` is `transition_hold`. The events of
-- one type with their payload are one constructor of `EventData`; the five events that move a hold
-- are one, with the status that it moves to. `updated_at` and `updated_by` are one field, as they
-- are always written together. Numbers are natural numbers, the days of a policy whole ones; the
-- schemas bound them by the largest safe integer where the source does. A date of the outbox or of
-- the device flow is counted from the earliest one that the engine represents. No function runs on
-- fuel: loops are over lists. A call of the
-- ledger, the outbox or the intake that throws gives the error in place of the new state, as nothing
-- that it wrote stays, but for a claim of the intake, which stays. What these calls take from their
-- platform (`JSON.stringify`, SHA-256, dates, the clock, the sender, the executor of a command) are
-- arguments.
--
-- Not modelled: snapshots of the kernel and recovery from one, strength, the capability registry, the
-- message texts of errors, the paths of zod issues in the details of refusals, the project service
-- and the queries of application, the other schemas of contracts, the sender that
-- groups a batch by project, and the Postgres adapters, the runtime of the daemon, cli and the
-- service api, which are input and output.
pub mod Base
pub mod Schema
pub mod State
pub mod Kernel
pub mod Ledger
pub mod Wire
pub mod Ingest
pub mod Outbox
pub mod Intake
pub mod Devices
pub mod Scenarios
