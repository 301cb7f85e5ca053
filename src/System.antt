-- ===== src/System.antt =====
-- The two tasks on the store that they share (src/main.rs).
pub mod Defs
pub mod Stores
pub mod Others
pub mod Apart
pub mod Independence
mod Tests
