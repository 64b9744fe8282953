-- ===== src/Examples.antt =====
-- Concrete runs of the models: inputs at which the theorems apply.
pub mod Data
pub mod Sandboxes
pub mod Grants
pub mod Secrets
pub mod Usages
pub mod Runs
pub mod Archives
pub mod Daemon
pub mod Cli
pub mod Installs
pub mod Collectors
pub mod Client
