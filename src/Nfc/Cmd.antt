-- ===== src/Nfc/Cmd.antt =====
-- The direct commands of the chip: `mod cmd` of st25r3916.rs.
use paper_name_plate.Base.{ℕ}

abbrev pub set_default : ℕ
set_default = 0xC1

abbrev pub go_to_sense : ℕ
go_to_sense = 0xCD

abbrev pub go_to_sleep : ℕ
go_to_sleep = 0xCE

abbrev pub unmask_receive_data : ℕ
unmask_receive_data = 0xD1

abbrev pub stop_all : ℕ
stop_all = 0xC2

abbrev pub transmit_with_crc : ℕ
transmit_with_crc = 0xC4

abbrev pub transmit_without_crc : ℕ
transmit_without_crc = 0xC5

abbrev pub transmit_reqa : ℕ
transmit_reqa = 0xC6

abbrev pub transmit_wupa : ℕ
transmit_wupa = 0xC7

abbrev pub initial_rf_collision : ℕ
initial_rf_collision = 0xC8

abbrev pub reset_rx_gain : ℕ
reset_rx_gain = 0xD5

abbrev pub adjust_regulators : ℕ
adjust_regulators = 0xD6

abbrev pub clear_fifo : ℕ
clear_fifo = 0xDB

abbrev pub space_b_access : ℕ
space_b_access = 0xFB

abbrev pub test_access : ℕ
test_access = 0xFC
