-- ===== src/Tag/States.antt =====
-- The states of the emulated tag: `start`, `stop`, `update` and the moves between states in
-- t2t_emu.rs.
pub mod Update
pub mod Moves
pub mod Written
use paper_name_plate.Base.{
  ℕ, zero, suc, ◌+◌, ◌-◌, ◌*◌, ◌/◌, ◌%◌, ◌^◌, min, List, [], ◌∷◌, ◌++◌, Bool, true, false, not,
}
use paper_name_plate.Base.{
  bit_and, bit_or, leb, ltb, ◌==◌, ◌&&◌, ◌||◌, if◌then◌else◌, length, get_or, drop, replicate,
}
use paper_name_plate.Base.Results.{Result, ok, err}
use paper_name_plate.Base.Io.{Io, pure, fail, continue, map_error, ◌>>=◌, ◌>>◌, update, gets}
use paper_name_plate.Bus.{Bus}
use paper_name_plate.Nfc.Reg
use paper_name_plate.Nfc.Cmd
use paper_name_plate.Nfc.Irq
use paper_name_plate.Nfc.Driver.{
  NfcError, Chip, ChipIo, delay_ms, read_reg, write_reg, modify_reg, write_reg_b,
}
use paper_name_plate.Nfc.Driver.{
  command, fifo_status, read_fifo, clear_irq, write_irq_mask, take_irq,
}
use paper_name_plate.Nfc.Setup.{init}
use paper_name_plate.Nfc.Transceive.{load_pt_mem_a, transmitter_of}
use paper_name_plate.Tag.Memory.{new_memory, uid_of}
use paper_name_plate.Tag.Commands.{Tag, CmdResult, stay, halt, drop_out, handle_command}

pub data State : Type 0 where
  off idle ready active halted : State

pub data Event : Type 0 where
  nothing field_on selected : Event
  field_off : (written : Bool) → Event

abbrev pub op_en : ℕ
op_en = 0x80

abbrev pub op_rx_en : ℕ
op_rx_en = 0x40

abbrev pub op_tx_en : ℕ
op_tx_en = 0x08

abbrev pub op_wu : ℕ
op_wu = 0x04

abbrev pub d_ac_ap2p : ℕ
d_ac_ap2p = 0x08

abbrev pub d_212_424_1r : ℕ
d_212_424_1r = 0x04

abbrev pub d_106_ac_a : ℕ
d_106_ac_a = 0x01

abbrev pub aux_no_crc_rx : ℕ
aux_no_crc_rx = 0x80

abbrev pub mode_target_bitrate_detect : ℕ
mode_target_bitrate_detect = bit_or 0x80 (0x09 * 2 ^ 3)

abbrev pub mode_target_listen_a : ℕ
mode_target_listen_a = bit_or 0x80 (0x01 * 2 ^ 3)

abbrev pub is_off : State → Bool
is_off off = true
is_off idle = false
is_off ready = false
is_off active = false
is_off halted = false

abbrev pub is_idle : State → Bool
is_idle off = false
is_idle idle = true
is_idle ready = false
is_idle active = false
is_idle halted = false

abbrev pub is_active : State → Bool
is_active off = false
is_active idle = false
is_active ready = false
is_active active = true
is_active halted = false

abbrev pub is_halted : State → Bool
is_halted off = false
is_halted idle = false
is_halted ready = false
is_halted active = false
is_halted halted = true

-- The contents of PT memory A: the UID, ATQA, and the SAK of three cascade levels.
abbrev pub pt_memory : List ℕ → List ℕ
pt_memory m = uid_of m ++ 0 ∷ 0 ∷ 0 ∷ 0x44 ∷ 0x00 ∷ 0x04 ∷ 0x00 ∷ 0x00 ∷ []

-- An error of the bus. `goto_off` and `goto_idle` call each other as long as a field comes and the
-- oscillator does not; `too_deep` ends that after a given number of calls, and is no error of the code.
pub data StopError (E : Type 0) : Type 0 where
  bus_error : E → StopError E
  too_deep : StopError E

module _ (b : Bus) where
  open b use {BusError}

  -- The chip, and `T2tEmulator`.
  pub record Emulator : Type 0 where
    pub chip : Chip b
    pub tag : Tag
    pub state : State
    pub bitrate_106 : Bool
    pub wakeup : Bool
    pub commands : ℕ
    pub last_cmd : ℕ

  -- `T2tEmulator::new`, beside the chip
  abbrev pub new : List ℕ → Chip b → Emulator
  new uid c = record {
    chip = c;
    tag = record { memory = new_memory uid; dirty = false };
    state = off;
    bitrate_106 = false;
    wakeup = false;
    commands = 0;
    last_cmd = 0;
  }

  abbrev pub EmuIo : Type 0 → Type 0
  EmuIo A = Io Emulator (StopError BusError) A

  -- A call of the driver.
  unfoldable pub on_chip : {A : Type 0} → ChipIo b A → EmuIo A
  on_chip m e = let r = m e.chip in (record e { chip = r.0 }, map_error bus_error r.1)

  unfoldable pub enter : State → EmuIo (Unit {0})
  enter s = update (λ e. record e { state = s })

  unfoldable pub set_wakeup : Bool → EmuIo (Unit {0})
  set_wakeup w = update (λ e. record e { wakeup = w })

  unfoldable pub set_bitrate : Bool → EmuIo (Unit {0})
  set_bitrate slow = update (λ e. record e { bitrate_106 = slow })

  unfoldable pub field_present : ChipIo b Bool
  field_present = do v ← read_reg b Reg.aux_display; pure (not (bit_and v 0x40 == 0))

  unfoldable pub osc_stable : ChipIo b Bool
  osc_stable = do v ← read_reg b Reg.aux_display; pure (not (bit_and v 0x10 == 0))

  -- The wait of `goto_idle`, 5 ms at a time: whether the oscillator got stable.
  unfoldable pub osc_rounds : ℕ → ChipIo b Bool
  unfolding osc_stable
  osc_rounds zero = osc_stable
  osc_rounds (suc n) = do
    good ← osc_stable
    if good then pure true else (delay_ms b 5 >> osc_rounds n)

  -- `op_control` is given `en`, if it has it not, and the oscillator is waited for.
  unfoldable pub ensure_osc : ChipIo b Bool
  unfolding osc_rounds
  ensure_osc = do
    v ← read_reg b Reg.op_control
    (if bit_and v op_en == 0
        then modify_reg b Reg.op_control 0 (bit_or op_en op_rx_en) >> osc_rounds 41
        else pure true)

  abbrev pub sense_again : ChipIo b (Unit {0})
  sense_again = modify_reg b Reg.nfcip1_passive_target d_106_ac_a 0 >> command b Cmd.go_to_sense

  abbrev pub listen : ChipIo b (Unit {0})
  listen = command b Cmd.clear_fifo >> command b Cmd.unmask_receive_data

  -- What `goto_idle` does once the oscillator is stable.
  unfoldable pub wait_reader : EmuIo (Unit {0})
  wait_reader = do
    on_chip (modify_reg b Reg.aux 0 aux_no_crc_rx)
    deselected ← gets (λ e. is_active e.state && not e.wakeup)
    on_chip (if deselected then sense_again else pure tt)
    on_chip listen
    set_wakeup false
    enter idle

  -- `goto_idle`, with what it calls if the oscillator does not get stable
  unfoldable pub idle_or : EmuIo (Unit {0}) → EmuIo (Unit {0})
  unfolding ensure_osc wait_reader
  idle_or otherwise = do good ← on_chip ensure_osc; if good then wait_reader else otherwise

  -- The steps of `goto_off` on the chip, up to its look for a field.
  abbrev pub off_steps : ChipIo b Bool
  off_steps =
      command b Cmd.stop_all
      >> modify_reg b Reg.op_control 0 op_rx_en
      >> modify_reg b Reg.nfcip1_passive_target d_106_ac_a 0
      >> command b Cmd.go_to_sense
      >> modify_reg b Reg.iso14443a_nfc 0x20 0
      >> clear_irq b
      >> modify_reg b Reg.aux 0 aux_no_crc_rx
      >> write_reg b Reg.mode mode_target_bitrate_detect
      >> field_present

  -- `goto_off`, with the calls that are left to it
  unfoldable pub off_or : EmuIo (Unit {0}) → EmuIo (Unit {0})
  unfolding idle_or
  off_or again = do
    set_bitrate false
    set_wakeup false
    present ← on_chip off_steps
    (if present then idle_or again else (do
      on_chip (
          modify_reg b Reg.op_control op_tx_en 0
          >> modify_reg b Reg.op_control 0 (bit_or op_en op_rx_en))
      enter off))

  unfoldable pub goto_off : ℕ → EmuIo (Unit {0})
  unfolding off_or
  goto_off zero = fail too_deep
  goto_off (suc n) = off_or (goto_off n)

  abbrev pub goto_idle : ℕ → EmuIo (Unit {0})
  goto_idle n = idle_or (goto_off n)

  unfoldable pub goto_ready : ℕ → EmuIo (Unit {0})
  unfolding goto_off
  goto_ready n = do
    gone ← on_chip (take_irq b Irq.eof)
    (if not (gone == 0) then goto_off n else (do
      on_chip (
          modify_reg b Reg.aux aux_no_crc_rx 0
          >> write_reg b Reg.bit_rate 0x00
          >> modify_reg b Reg.op_control op_wu 0
          >> write_reg b Reg.mode mode_target_listen_a)
      enter ready))

  unfoldable pub goto_active : EmuIo (Unit {0})
  goto_active = do
    on_chip (modify_reg b Reg.nfcip1_passive_target 0 d_106_ac_a >> take_irq b Irq.error_mask)
    enter active

  unfoldable pub goto_halt : ℕ → EmuIo (Unit {0})
  unfolding goto_off
  goto_halt n = do
    present ← on_chip (
        modify_reg b Reg.nfcip1_passive_target d_106_ac_a 0
        >> command b Cmd.go_to_sleep
        >> write_reg b Reg.mode mode_target_bitrate_detect
        >> modify_reg b Reg.iso14443a_nfc 0x20 0
        >> command b Cmd.unmask_receive_data
        >> field_present)
    (if present then enter halted else goto_off n)

  unfoldable pub read_bitrate : EmuIo (Unit {0})
  read_bitrate = do v ← on_chip (read_reg b Reg.bitrate_detect); set_bitrate (v / 2 ^ 4 % 4 == 0)
