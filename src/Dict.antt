-- ===== src/Dict.antt =====
-- `HashMap` of the standard library: an association list with one entry for each key. The order in
-- which a map is walked is not specified in Rust; what is stated of maps is stated of lookups, or
-- up to the order of the entries.
pub mod Defs
pub mod Laws
