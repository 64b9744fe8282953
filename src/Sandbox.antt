-- ===== src/Sandbox.antt =====
-- The sandboxes of runtime/src/sandbox: the policy that chooses one, and the two that run agents.
pub mod Policy
pub mod Spec
pub mod Process
pub mod Container
