-- ===== src/Nfc.antt =====
-- st25r3916.rs: the NFC chip, on the bus.
pub mod Reg
pub mod Cmd
pub mod Irq
pub mod Op
pub mod Driver
pub mod Setup
pub mod Transceive
pub mod Poll
pub mod Interrupts
