-- ===== src/Text.antt =====
-- Rust's `String` and `str`: the bytes of the text in UTF-8. What the program does with text
-- (`==`, `format!`, `as_bytes`, `bytes`, `starts_with`) is then done on lists of bytes.
pub mod Defs
pub mod Decimal
pub mod Utf8
pub mod Hex
