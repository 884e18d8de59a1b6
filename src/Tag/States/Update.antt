-- ===== src/Tag/States/Update.antt =====
-- `start`, `configure`, `stop` and `update` of t2t_emu.rs.
use paper_name_plate.Base.{ℕ, ◌+◌, ◌-◌, ◌%◌, ◌^◌, min, List, Bool, true, false, not}
use paper_name_plate.Base.{bit_and, bit_or, leb, ltb, ◌==◌, ◌&&◌, ◌||◌, if◌then◌else◌, get_or, drop}
use paper_name_plate.Base.Results.{ok}
use paper_name_plate.Base.Io.{Io, pure, continue, map_error, ◌>>=◌, ◌>>◌, update, gets, lift}
use paper_name_plate.Bus.{Bus}
use paper_name_plate.Nfc.Reg
use paper_name_plate.Nfc.Cmd
use paper_name_plate.Nfc.Irq
use paper_name_plate.Nfc.Driver.{
  NfcError, i2c, ChipIo, read_reg, write_reg, modify_reg, write_reg_b,
}
use paper_name_plate.Nfc.Driver.{command, fifo_status, read_fifo, write_irq_mask, take_irq}
use paper_name_plate.Nfc.Setup.{init}
use paper_name_plate.Nfc.Transceive.{load_pt_mem_a, transmitter_of}
use paper_name_plate.Tag.Commands.{CmdResult, stay, halt, drop_out, handle_command}
use paper_name_plate.Tag.States.{State, off, idle, ready, active, halted}
use paper_name_plate.Tag.States.{
  Event, nothing, field_on, selected, field_off, is_off, is_idle, is_active, is_halted,
}
use paper_name_plate.Tag.States.{
  op_en, op_rx_en, op_tx_en, op_wu, d_ac_ap2p, d_212_424_1r, d_106_ac_a,
}
use paper_name_plate.Tag.States.{
  mode_target_bitrate_detect, pt_memory, StopError, bus_error, too_deep,
}
use paper_name_plate.Tag.States.{Emulator, EmuIo, on_chip, enter, set_wakeup, listen, field_present}
use paper_name_plate.Tag.States.{
  goto_off, goto_idle, goto_ready, goto_active, goto_halt, read_bitrate,
}

module _ (b : Bus) where
  open b use {BusError}

  -- The steps of `configure` on the chip, before and behind the loading of PT memory.
  abbrev pub target_setup : List ℕ → ChipIo b (Unit {0})
  target_setup pt =
      command b Cmd.stop_all
      >> modify_reg b Reg.op_control op_wu 0
      >> modify_reg b Reg.op_control 0x03 0x03
      >> modify_reg b Reg.aux 0x30 0x10
      >> load_pt_mem_a b pt
      >> write_reg b Reg.mode mode_target_bitrate_detect
      >> write_reg b Reg.nfcip1_passive_target (bit_or (bit_or 0x50 d_ac_ap2p) d_212_424_1r)
      >> write_reg b Reg.irq_mask_target 0x00
      >> write_reg b Reg.timer_emv_control 0x08
      >> write_reg b Reg.mask_rx_timer 4
      >> modify_reg b Reg.iso14443a_nfc 0xE0 0
      >> write_reg b Reg.ant_tune_a 0x00
      >> write_reg b Reg.ant_tune_b 0xFF
      >> write_reg_b b Reg.b_overshoot_conf1 0x00
      >> write_reg_b b Reg.b_overshoot_conf2 0x00
      >> write_reg_b b Reg.b_undershoot_conf1 0x00
      >> write_reg_b b Reg.b_undershoot_conf2 0x00
      >> write_irq_mask b 0
      >> command b Cmd.unmask_receive_data

  unfoldable pub configure : ℕ → EmuIo b (Unit {0})
  configure n = do
    pt ← gets (λ e. pt_memory e.tag.memory)
    on_chip b (target_setup pt)
    update (λ e. record e { tag = record e.tag { dirty = false } })
    goto_off b n

  abbrev of_bus : StopError BusError → StopError (NfcError BusError)
  of_bus (bus_error e) = bus_error (i2c e)
  of_bus too_deep = too_deep

  -- The chip's `init`, whose errors are the driver's, and then `configure`.
  unfoldable pub start : ℕ → Io (Emulator b) (StopError (NfcError BusError)) (Unit {0})
  unfolding configure
  start n e =
      let r = init b e.chip in
      continue (record e { chip = r.0 }, map_error bus_error r.1) (λ u. lift of_bus (configure n))

  unfoldable pub stop : EmuIo b (Unit {0})
  stop =
      on_chip b (
        modify_reg b Reg.op_control 0 op_en
        >> modify_reg b Reg.op_control (bit_or op_tx_en op_rx_en) 0
        >> modify_reg b Reg.nfcip1_passive_target 0
            (bit_or (bit_or d_ac_ap2p d_212_424_1r) d_106_ac_a)
        >> write_reg b Reg.mode 0x00)
      >> enter b off

  -- The first bytes of a frame are read for the log, and the frame is dropped.
  abbrev pub discard : ℕ → ChipIo b (Unit {0})
  discard bytes = read_fifo b (min bytes 4) >> listen b

  unfoldable pub set_commands : ℕ → EmuIo b (Unit {0})
  set_commands n = update (λ e. record e { commands = n })

  unfoldable pub update_off : ℕ → EmuIo b (Unit {0})
  update_off n = do
    on ← on_chip b (take_irq b Irq.eon)
    present ← if on == 0 then on_chip b (field_present b) else pure true
    (if present then set_commands 0 >> goto_idle b n else pure tt)

  -- A frame that the chip has not answered by itself.
  unfoldable pub stray_frame : EmuIo b (Unit {0})
  stray_frame = do
    s ← on_chip b (take_irq b Irq.error_mask >> fifo_status b)
    on_chip b (discard s.0)
    waiting ← gets (λ e. is_idle e.state)
    on_chip b (if waiting then modify_reg b Reg.op_control op_tx_en 0 else pure tt)

  -- The end of an automatic answer: if the chip has come far enough in the selection, `ready`.
  unfoldable pub auto_answer : ℕ → EmuIo b (Unit {0})
  auto_answer n = do
    v ← on_chip b (read_reg b Reg.pt_display)
    asleep ← gets (λ e. is_halted e.state)
    (if ltb (if asleep then 0x09 else 0x01) (v % 16)
        then set_wakeup b asleep >> goto_ready b n
        else pure tt)

  unfoldable pub update_idle : ℕ → EmuIo b (Unit {0})
  unfolding stray_frame auto_answer
  update_idle n = do
    f ← on_chip b (take_irq b (bit_or (bit_or (bit_or Irq.nfct Irq.rxe) Irq.eof) Irq.rxe_pta))
    if bit_and f Irq.nfct == 0 then pure tt else read_bitrate b
    slow ← gets (λ e. e.bitrate_106)
    (if not (bit_and f Irq.eof == 0)
        then goto_off b n
        else if not (bit_and f Irq.rxe == 0)
        then stray_frame
        else if not (bit_and f Irq.rxe_pta == 0) && slow
        then auto_answer n
        else pure tt)

  -- `debug` says whether the log is on: its arguments are evaluated only then.
  unfoldable pub update_ready : (debug : Bool) → ℕ → EmuIo b (Unit {0})
  update_ready debug n = do
    wake ← gets (λ e. if e.wakeup then Irq.wu_ax else Irq.wu_a)
    f ← on_chip b (take_irq b (bit_or Irq.eof wake))
    (if not (bit_and f Irq.eof == 0)
        then goto_off b n
        else if not (bit_and f wake == 0)
        then on_chip b (if debug then read_reg b Reg.pt_display >> pure tt else pure tt)
          >> goto_active b
        else pure tt)

  -- Out of `active`, back to where the tag was woken.
  unfoldable pub fall_back : ℕ → EmuIo b (Unit {0})
  fall_back n = do woken ← gets (λ e. e.wakeup); (if woken then goto_halt b n else goto_idle b n)

  -- `handle_command` on the tag and the chip.
  unfoldable pub serve_command : ℕ → List ℕ → EmuIo b CmdResult
  unfolding handle_command
  serve_command op args e =
      let r = handle_command (transmitter_of b) e.chip e.tag op args in
      (record e { chip = r.0; tag = r.1 }, map_error bus_error r.2)

  abbrev pub after_command : ℕ → CmdResult → EmuIo b (Unit {0})
  after_command n stay = pure tt
  after_command n halt = goto_halt b n
  after_command n drop_out = fall_back n

  unfoldable pub set_last_cmd : ℕ → EmuIo b (Unit {0})
  set_last_cmd op = update (λ e. record e { last_cmd = op })

  -- A frame of `bytes` bytes, of which the last two are its CRC.
  unfoldable pub take_command : ℕ → ℕ → EmuIo b (Unit {0})
  unfolding serve_command fall_back
  take_command n bytes = do
    rx ← on_chip b (read_fifo b (bytes - 2))
    let op = get_or rx 0 0
    served ← gets (λ e. e.commands)
    set_commands ((served + 1) % 2 ^ 32)
    set_last_cmd op
    r ← serve_command op (drop 1 rx)
    after_command n r

  unfoldable pub update_active : ℕ → EmuIo b (Unit {0})
  unfolding take_command fall_back
  update_active n = do
    f ← on_chip b (take_irq b (bit_or Irq.eof Irq.rxe))
    (if not (bit_and f Irq.eof == 0)
        then goto_off b n
        else if bit_and f Irq.rxe == 0
        then pure tt
        else (do
          errors ← on_chip b (take_irq b Irq.error_mask)
          s ← on_chip b (fifo_status b)
          (if not (errors == 0) || (leb s.0 2 || ltb 64 s.0)
              then on_chip b (discard s.0) >> fall_back n
              else take_command n s.0)))

  unfoldable pub update_from : State → (debug : Bool) → ℕ → EmuIo b (Unit {0})
  unfolding update_off update_idle update_ready update_active
  update_from off debug n = update_off n
  update_from idle debug n = update_idle n
  update_from ready debug n = update_ready debug n
  update_from active debug n = update_active n
  update_from halted debug n = update_idle n

  -- The event of a step from `before`, by which `dirty` is reported at the end of a field.
  unfoldable pub report : State → EmuIo b Event
  report before e =
      if is_off before
      then (e, ok (if is_off e.state then nothing else field_on))
      else if is_off e.state
      then (record e { tag = record e.tag { dirty = false } }, ok (field_off e.tag.dirty))
      else (e, ok (if is_active e.state && not (is_active before) then selected else nothing))

  -- `update` of `T2tEmulator`
  unfoldable pub update_tag : (debug : Bool) → ℕ → EmuIo b Event
  unfolding update_from report
  update_tag debug n = do before ← gets (λ e. e.state); update_from before debug n; report before
