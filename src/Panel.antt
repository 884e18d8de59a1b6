-- ===== src/Panel.antt =====
-- The electronic paper panel: ssd1677/ and the drawing of images on it.
pub mod FrameBuffer
pub mod Lut
pub mod Driver
