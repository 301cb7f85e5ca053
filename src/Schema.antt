-- ===== src/Schema.antt =====
-- The schema registry (src/storage/schema.rs).
pub mod Defs
pub mod Entries
pub mod Compatibility
pub mod Modes
pub mod Validation
pub mod Register
mod Tests
