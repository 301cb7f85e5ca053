-- ===== src/Snapshot.antt =====
-- The parallel snapshotter (src/snapshot/parallel.rs).
pub mod Defs
pub mod Partition
pub mod Counts
pub mod Workers
pub mod Outcome
pub mod Progress
mod Tests
