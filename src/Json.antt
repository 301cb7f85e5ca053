-- ===== src/Json.antt =====
-- `serde_json::Value`, by its documented shape, with the inspections that the program makes. How a
-- value is printed and parsed is the library's own code, and a parameter wherever it is used.
pub mod Number
pub mod Value
