-- ===== src/Nfc/Reg.antt =====
-- The registers of the chip: `mod reg` of st25r3916.rs.
use paper_name_plate.Base.{ℕ}

abbrev pub io_conf1 : ℕ
io_conf1 = 0x00

abbrev pub io_conf2 : ℕ
io_conf2 = 0x01

abbrev pub op_control : ℕ
op_control = 0x02

abbrev pub mode : ℕ
mode = 0x03

abbrev pub bit_rate : ℕ
bit_rate = 0x04

abbrev pub iso14443a_nfc : ℕ
iso14443a_nfc = 0x05

abbrev pub nfcip1_passive_target : ℕ
nfcip1_passive_target = 0x08

abbrev pub aux : ℕ
aux = 0x0A

abbrev pub rx_conf1 : ℕ
rx_conf1 = 0x0B

abbrev pub rx_conf2 : ℕ
rx_conf2 = 0x0C

abbrev pub rx_conf3 : ℕ
rx_conf3 = 0x0D

abbrev pub rx_conf4 : ℕ
rx_conf4 = 0x0E

abbrev pub mask_rx_timer : ℕ
mask_rx_timer = 0x0F

abbrev pub no_response_timer1 : ℕ
no_response_timer1 = 0x10

abbrev pub timer_emv_control : ℕ
timer_emv_control = 0x12

abbrev pub irq_mask_main : ℕ
irq_mask_main = 0x16

abbrev pub irq_main : ℕ
irq_main = 0x1A

abbrev pub irq_timer_nfc : ℕ
irq_timer_nfc = 0x1B

abbrev pub irq_error_wup : ℕ
irq_error_wup = 0x1C

abbrev pub irq_target : ℕ
irq_target = 0x1D

abbrev pub fifo_status1 : ℕ
fifo_status1 = 0x1E

abbrev pub fifo_status2 : ℕ
fifo_status2 = 0x1F

abbrev pub collision_status : ℕ
collision_status = 0x20

abbrev pub num_tx_bytes1 : ℕ
num_tx_bytes1 = 0x22

abbrev pub ant_tune_a : ℕ
ant_tune_a = 0x26

abbrev pub ant_tune_b : ℕ
ant_tune_b = 0x27

abbrev pub tx_driver : ℕ
tx_driver = 0x28

abbrev pub pt_mod : ℕ
pt_mod = 0x29

abbrev pub field_threshold_act : ℕ
field_threshold_act = 0x2A

abbrev pub field_threshold_deact : ℕ
field_threshold_deact = 0x2B

abbrev pub aux_display : ℕ
aux_display = 0x31

abbrev pub ic_identity : ℕ
ic_identity = 0x3F

abbrev pub pt_display : ℕ
pt_display = 0x21

abbrev pub bitrate_detect : ℕ
bitrate_detect = 0x24

abbrev pub irq_mask_target : ℕ
irq_mask_target = 0x19

abbrev pub b_emd_sup_conf : ℕ
b_emd_sup_conf = 0x05

abbrev pub b_corr_conf1 : ℕ
b_corr_conf1 = 0x0C

abbrev pub b_corr_conf2 : ℕ
b_corr_conf2 = 0x0D

abbrev pub b_res_am_mod : ℕ
b_res_am_mod = 0x2A

abbrev pub b_overshoot_conf1 : ℕ
b_overshoot_conf1 = 0x30

abbrev pub b_overshoot_conf2 : ℕ
b_overshoot_conf2 = 0x31

abbrev pub b_undershoot_conf1 : ℕ
b_undershoot_conf1 = 0x32

abbrev pub b_undershoot_conf2 : ℕ
b_undershoot_conf2 = 0x33
