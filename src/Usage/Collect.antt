-- ===== src/Usage/Collect.antt =====
-- runtime/src/usage: what the logs of other tools say of their use. JSON.parse and the reading of a
-- text as a number are arguments.
pub mod Sessions
pub mod Codex
pub mod Claude
