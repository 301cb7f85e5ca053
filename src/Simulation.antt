-- ===== src/Simulation.antt =====
-- The tasks as `main` sets them up: the simulated streams, the schema, and restarts.
pub mod Defs
pub mod Stages
pub mod Filter
pub mod Transactions
pub mod Blocks
pub mod Ready
pub mod Sessions
pub mod Sensors
pub mod Wasm
pub mod Cassandra
mod Tests
