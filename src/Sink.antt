-- ===== src/Sink.antt =====
-- The sinks, and the serialization they use (src/sink/, src/serialize/mod.rs).
pub mod Defs
pub mod Instances
