-- ===== src/Sync.antt =====
-- Synchronization between clusters (src/sync/mod.rs).
pub mod Defs
pub mod Conflicts
mod Tests
