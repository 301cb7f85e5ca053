-- ===== src/Cli.antt =====
-- The commands for the operator (src/cli/mod.rs).
pub mod Defs
pub mod Inspect
mod Tests
