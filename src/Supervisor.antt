-- ===== src/Supervisor.antt =====
-- cli/src/lib/supervisor.ts and cli/src/commands/supervisor-run.ts: managed runs. Each has a record
-- in a file of its own; the command that starts or stops it and the worker that runs it meet only
-- through that file.
pub mod Record
pub mod Reconcile
pub mod Start
pub mod Stop
pub mod Worker
pub mod Logs
