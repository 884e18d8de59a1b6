-- ===== src/Nfc/Irq.antt =====
-- The interrupt flags, as bits of the 32-bit word: `mod irq` of st25r3916.rs.
use paper_name_plate.Base.{ℕ, ◌*◌, ◌^◌}

abbrev pub osc : ℕ
osc = 0x80 * 2 ^ 24

abbrev pub wl : ℕ
wl = 0x40 * 2 ^ 24

abbrev pub rxs : ℕ
rxs = 0x20 * 2 ^ 24

abbrev pub rxe : ℕ
rxe = 0x10 * 2 ^ 24

abbrev pub txe : ℕ
txe = 0x08 * 2 ^ 24

abbrev pub col : ℕ
col = 0x04 * 2 ^ 24

abbrev pub nre : ℕ
nre = 0x40 * 2 ^ 16

abbrev pub crc : ℕ
crc = 0x80 * 2 ^ 8

abbrev pub par : ℕ
par = 0x40 * 2 ^ 8

abbrev pub err2 : ℕ
err2 = 0x20 * 2 ^ 8

abbrev pub err1 : ℕ
err1 = 0x10 * 2 ^ 8

abbrev pub eon : ℕ
eon = 0x10 * 2 ^ 16

abbrev pub eof : ℕ
eof = 0x08 * 2 ^ 16

abbrev pub nfct : ℕ
nfct = 0x01 * 2 ^ 16

abbrev pub rxe_pta : ℕ
rxe_pta = 0x10

abbrev pub wu_ax : ℕ
wu_ax = 0x02

abbrev pub wu_a : ℕ
wu_a = 0x01

abbrev pub error_mask : ℕ
error_mask = 0x0000F000
