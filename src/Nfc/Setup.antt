-- ===== src/Nfc/Setup.antt =====
-- Bring-up of the chip and its field: `init`, `configure_nfca` and their kin in st25r3916.rs.
use paper_name_plate.Base.{ℕ, zero, suc, ◌*◌, ◌/◌, ◌^◌, List, [], ◌∷◌, Bool, not, ◌&&◌}
use paper_name_plate.Base.{bit_and, bit_or, get_or, ◌==◌, if◌then◌else◌}
use paper_name_plate.Base.Results.{ok, err}
use paper_name_plate.Base.Io.{Io, pure, fail, ◌>>=◌, ◌>>◌, lift}
use paper_name_plate.Bus.{Bus}
use paper_name_plate.Nfc.Reg
use paper_name_plate.Nfc.Cmd
use paper_name_plate.Nfc.Irq
use paper_name_plate.Nfc.Op
use paper_name_plate.Nfc.Driver.{
  NfcError, i2c, not_found, oscillator, Chip, ChipIo, on_bus, delay_ms, st25_addr,
}
use paper_name_plate.Nfc.Driver.{
  read_reg, write_reg, write_regs, modify_reg, read_reg_b, write_reg_b, command,
}
use paper_name_plate.Nfc.Driver.{clear_irq, write_irq_mask, wait_irq}

module _ (b : Bus) where
  open b use {BusError, write, write_read}

  -- A call that may also fail with an error of the driver's own.
  abbrev pub NfcIo : Type 0 → Type 0
  NfcIo A = Io (Chip b) (NfcError BusError) A

  unfoldable pub identity : ChipIo b ℕ
  identity = read_reg b Reg.ic_identity

  abbrev pub is_st25r3916 : ℕ → Bool
  is_st25r3916 v = (bit_and (v / 2 ^ 3) 0x1F == 0x05) && not (bit_and v 0x07 == 0)

  -- The five probes of `init`, with the identity that was read last.
  unfoldable pub probe : ℕ → ℕ → NfcIo (Unit {0})
  probe zero seen c = (c, err (not_found seen))
  probe (suc n) seen c =
      let r = identity c in
      let again = λ (v : ℕ). probe n v (delay_ms b 20 r.0).0 in
      elim r.1 [ ok v ↦ if is_st25r3916 v then (r.0, ok tt) else again v | err e ↦ again seen ]

  -- `osc_ok` of AUX_DISPLAY
  unfoldable pub check_osc : NfcIo (Unit {0})
  check_osc = do
    aux ← lift i2c (read_reg b Reg.aux_display)
    if bit_and aux 0x10 == 0 then fail oscillator else pure tt

  -- The oscillator is switched on, and its interrupt waited for.
  unfoldable pub start_osc : NfcIo (Unit {0})
  unfolding check_osc
  start_osc = do
    lift i2c (
        modify_reg b Reg.irq_mask_main 0x80 0 >> clear_irq b >> modify_reg b Reg.op_control 0 Op.en)
    flags ← lift i2c (wait_irq b Irq.osc 50)
    lift i2c (modify_reg b Reg.irq_mask_main 0 0x80)
    if bit_and flags Irq.osc == 0 then check_osc else pure tt

  unfoldable pub enable_osc : NfcIo (Unit {0})
  unfolding start_osc check_osc
  enable_osc = do
    v ← lift i2c (read_reg b Reg.op_control)
    (if bit_and v Op.en == 0 then start_osc else pure tt)
    check_osc

  -- What follows the probes, up to the start of the oscillator.
  unfoldable pub set_defaults : ChipIo b (Unit {0})
  set_defaults =
      command b Cmd.stop_all
      >> modify_reg b Reg.op_control (bit_or Op.tx_en Op.rx_en) 0
      >> delay_ms b 2
      >> command b Cmd.set_default
      >> on_bus b (write st25_addr (Cmd.test_access ∷ 0x04 ∷ 0x10 ∷ []))
      >> write_regs b Reg.io_conf1 (0x10 ∷ bit_or 0x04 0x80 ∷ [])
      >> write_reg b Reg.tx_driver (13 * 2 ^ 4)
      >> modify_reg b Reg.io_conf1 0x07 0x07
      >> write_reg_b b Reg.b_res_am_mod 0x80
      >> modify_reg b Reg.io_conf2 0 0x20
      >> write_reg_b b Reg.b_res_am_mod 0x00
      >> write_reg b Reg.field_threshold_act 0x13
      >> write_reg b Reg.field_threshold_deact 0x02
      >> modify_reg b Reg.nfcip1_passive_target 0xF0 0x50
      >> write_reg b Reg.pt_mod 0x5F
      >> write_reg_b b Reg.b_emd_sup_conf 0x40
      >> write_reg b Reg.ant_tune_a 0x82
      >> write_reg b Reg.ant_tune_b 0x82
      >> modify_reg b Reg.op_control 0x03 0
      >> command b Cmd.clear_fifo
      >> write_irq_mask b 0xFFFF00FF
      >> clear_irq b

  unfoldable pub init : NfcIo (Unit {0})
  unfolding probe set_defaults enable_osc
  init =
      probe 5 0
      >> lift i2c set_defaults
      >> enable_osc
      >> lift i2c (write_irq_mask b 0 >> command b Cmd.adjust_regulators >> delay_ms b 5)

  abbrev pub raise_field : ChipIo b (Unit {0})
  raise_field =
      modify_reg b Reg.op_control 0x03 0
      >> modify_reg b Reg.op_control 0 (bit_or Op.tx_en Op.rx_en)
      >> delay_ms b 6

  unfoldable pub field_on : ChipIo b (Unit {0})
  field_on = do
    v ← read_reg b Reg.op_control
    if not (bit_and v Op.tx_en == 0) then pure tt else raise_field

  unfoldable pub configure_nfca : ChipIo b (Unit {0})
  unfolding field_on
  configure_nfca =
      command b Cmd.stop_all
      >> modify_reg b Reg.op_control Op.wu 0
      >> write_reg b Reg.mode (bit_or (0x01 * 2 ^ 3) 0x01)
      >> write_reg b Reg.bit_rate 0x00
      >> write_reg b Reg.iso14443a_nfc 0x00
      >> modify_reg b Reg.aux 0x04 0
      >> write_reg_b b Reg.b_overshoot_conf1 0x40
      >> write_reg_b b Reg.b_overshoot_conf2 0x03
      >> write_reg_b b Reg.b_undershoot_conf1 0x40
      >> write_reg_b b Reg.b_undershoot_conf2 0x03
      >> write_reg_b b Reg.b_corr_conf1 0x47
      >> write_reg_b b Reg.b_corr_conf2 0x00
      >> write_reg b Reg.rx_conf1 0x08
      >> write_reg b Reg.rx_conf2 (bit_or (bit_or (bit_or 0x20 0x08) 0x04) 0x01)
      >> write_reg b Reg.rx_conf3 0xD8
      >> write_reg b Reg.rx_conf4 0x22
      >> command b Cmd.reset_rx_gain
      >> write_irq_mask b 0
      >> field_on

  unfoldable pub is_field_on : ChipIo b Bool
  is_field_on = do v ← read_reg b Reg.aux_display; pure (not (bit_and v 0x20 == 0))

  unfoldable pub field_on_ca : ChipIo b ℕ
  field_on_ca = do
    modify_reg b Reg.op_control (bit_or Op.tx_en Op.rx_en) 0
    modify_reg b Reg.op_control 0x03 0x01
    write_reg_b b 0x15 0x00
    clear_irq b
    command b Cmd.initial_rf_collision
    flags ← wait_irq b (bit_or (bit_or (0x04 * 2 ^ 16) (0x02 * 2 ^ 16)) 0x20) 20
    modify_reg b Reg.op_control 0 (bit_or Op.tx_en Op.rx_en)
    delay_ms b 6
    pure flags

  unfoldable pub read_test_reg : ℕ → ChipIo b ℕ
  read_test_reg r = do
    bs ← on_bus b (write_read st25_addr (Cmd.test_access ∷ bit_or 0x40 (bit_and r 0x3F) ∷ []) 1)
    pure (get_or bs 0 0)

  -- The `n` registers from `r` on; `dump_regs` reads 64 from 0.
  unfoldable pub dump_from : ℕ → ℕ → ChipIo b (List ℕ)
  dump_from r zero = pure []
  dump_from r (suc n) = do v ← read_reg b r; rest ← dump_from (suc r) n; pure (v ∷ rest)

  unfoldable pub dump_regs : ChipIo b (List ℕ)
  dump_regs = dump_from 0 64

  unfoldable pub measure_amplitude : ChipIo b ℕ
  measure_amplitude = command b 0xD3 >> delay_ms b 2 >> read_reg b 0x25

  unfoldable pub status : ChipIo b (ℕ × ℕ × ℕ)
  status = do
    control ← read_reg b Reg.op_control
    display ← read_reg b Reg.aux_display
    regulator ← read_reg_b b 0x2C
    pure (control, display, regulator)

  unfoldable pub field_off : ChipIo b (Unit {0})
  field_off = modify_reg b Reg.op_control (bit_or Op.tx_en Op.rx_en) 0

  unfoldable pub power_down : ChipIo b (Unit {0})
  unfolding field_off
  power_down = field_off >> modify_reg b Reg.op_control Op.en 0
