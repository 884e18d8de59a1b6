-- ===== src/Ble.antt =====
-- app/ble.rs: the transfer of text and images over BLE.
pub mod Crc
pub mod Receive
