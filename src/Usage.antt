-- ===== src/Usage.antt =====
-- The usage database of runtime/src/usage.ts, and the readers of other tools' logs under
-- runtime/src/usage.
pub mod Tables
pub mod Store
pub mod Collect
pub mod Consent
pub mod Collection
