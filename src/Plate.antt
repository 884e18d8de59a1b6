-- ===== src/Plate.antt =====
-- app/plate.rs: the content of the plate, its plain form, its NDEF form, and its image.
pub mod Draw
pub mod Image
pub mod Content
pub mod Plain
pub mod Base64
pub mod Ndef
