-- ===== src/Pipeline.antt =====
-- The tasks of src/main.rs that take the events of a source through all stages.
pub mod Defs
pub mod Stages
pub mod Delivery
pub mod Composition
pub mod Runs
pub mod Rejected
pub mod Failed
pub mod Keeps
pub mod Checkpoint
pub mod Log
mod Tests
