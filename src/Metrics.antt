-- ===== src/Metrics.antt =====
-- The counters and their exposition (src/resiliency/metrics.rs).
pub mod Defs
pub mod Answers
pub mod Counts
mod Tests
