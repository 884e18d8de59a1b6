-- ===== src/Reader.antt =====
-- ndef.rs: reading a Type 4 tag's message, and the summary of its first record.
pub mod Uri
pub mod First
pub mod Type4
