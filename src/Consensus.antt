-- ===== src/Consensus.antt =====
-- Leader election and failover (src/consensus).
pub mod Defs
pub mod Election
pub mod Shutdown
pub mod Failover
pub mod Lease
mod Tests
