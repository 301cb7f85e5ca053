-- ===== src/Buffer.antt =====
-- The transaction buffer (src/buffer/mod.rs).
pub mod Defs
pub mod Pending
pub mod Outputs
pub mod Commit
pub mod Prune
mod Tests
