-- ===== src/Package.antt =====
-- sdk/src/package.ts: agent archives.
pub mod Paths
pub mod Ignored
pub mod Signature
pub mod Extract
