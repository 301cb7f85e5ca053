-- ===== src/Confluent.antt =====
-- The client of the Confluent registry (src/storage/confluent.rs).
pub mod Defs
pub mod Wire
pub mod Calls
pub mod Ids
pub mod Avro
pub mod Instances
mod Tests
