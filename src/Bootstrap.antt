-- ===== src/Bootstrap.antt =====
-- The start of the program (src/main.rs): the state that the tasks begin with, and the tasks from
-- there.
pub mod Defs
pub mod Session
pub mod Launches
mod Tests
