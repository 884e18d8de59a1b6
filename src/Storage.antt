-- ===== src/Storage.antt =====
-- config_store.rs: the records in flash that keep the content and the image.
pub mod Flash
pub mod Crc
pub mod Record
