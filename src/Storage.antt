-- ===== src/Storage.antt =====
-- The state store (src/storage/mod.rs) over a key-value database.
pub mod Database
pub mod Store
pub mod Laws
pub mod Instances
mod Tests
