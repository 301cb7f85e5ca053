-- ===== src/Dedup.antt =====
-- The deduplication filter (src/resiliency/dedup.rs).
pub mod Defs
pub mod Invariant
pub mod Window
mod Tests
