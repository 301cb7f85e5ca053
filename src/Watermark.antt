-- ===== src/Watermark.antt =====
-- The watermark snapshotter (src/snapshot/watermark.rs).
pub mod Defs
pub mod Markers
pub mod Reconcile
pub mod Cycle
mod Tests
