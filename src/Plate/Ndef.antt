-- ===== src/Plate/Ndef.antt =====
-- The NDEF form of the content: `to_ndef`, `text_payload`, `fix_me_flag`, `record_at` and `apply_ndef`
-- of app/plate.rs.
pub mod Record
pub mod Shift
pub mod Walk
pub mod Lines
pub mod RoundTrip
pub mod Images
pub mod Write
pub mod Read
