-- ===== src/Text.antt =====
-- The parts of Rust's `str` that app/plate.rs and app/ble.rs use. A text is the list of its scalar
-- values, and a `&[u8]` the list of its bytes.
pub mod Utf8
pub mod Trim
pub mod Split
