-- ===== src/Control.antt =====
-- cli/src/lib/control-plane.ts: the lock of the daemon, the choice of its port, its start and stop, and
-- the tail of its log.
pub mod Lock
pub mod Ports
pub mod Daemon
pub mod Tail
