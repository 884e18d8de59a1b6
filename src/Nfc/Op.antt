-- ===== src/Nfc/Op.antt =====
-- The bits of the register `OP_CONTROL`: `mod op` of st25r3916.rs.
use paper_name_plate.Base.{ℕ}

abbrev pub en : ℕ
en = 0x80

abbrev pub rx_en : ℕ
rx_en = 0x40

abbrev pub tx_en : ℕ
tx_en = 0x08

abbrev pub wu : ℕ
wu = 0x04
