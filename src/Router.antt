-- ===== src/Router.antt =====
-- The partition of an event (src/router/mod.rs).
pub mod Defs
pub mod Partitions
pub mod Tenants
pub mod Routes
mod Tests
