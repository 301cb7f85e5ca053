-- ===== src/Worker.antt =====
-- The two tasks of src/main.rs with all that they do for an event: the heartbeat, the wait for a
-- token, and the lines that are printed.
pub mod World
pub mod Defs
pub mod Lines
pub mod Items
pub mod Shows
pub mod Stages
pub mod Runs
pub mod Outcome
pub mod Served
pub mod Instances
pub mod Kafka
mod Tests
