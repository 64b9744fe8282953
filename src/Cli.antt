-- ===== src/Cli.antt =====
-- cli/src/lib: the libraries of the command line, between the commands and the runtime.
pub mod Version
pub mod Resolve
pub mod Prepare
pub mod Spec
pub mod Source
pub mod Install
