-- ===== src/Nfc/Transceive.antt =====
-- Frames of the chip in st25r3916.rs: timers, `transceive` and `target_transmit`.
use paper_name_plate.Base.{ℕ, ◌+◌, ◌-◌, ◌*◌, ◌/◌, ◌%◌, ◌^◌, min, max, List, ◌∷◌, Bool, true, not}
use paper_name_plate.Base.{bit_and, bit_or, ◌==◌, if◌then◌else◌, length}
use paper_name_plate.Base.Bytes.{u16_be_bytes}
use paper_name_plate.Base.Io.{pure, fail, ◌>>=◌, ◌>>◌, lift}
use paper_name_plate.Bus.{Bus}
use paper_name_plate.IsoDep.{Link}
use paper_name_plate.Tag.Commands.{Transmitter}
use paper_name_plate.Nfc.Reg
use paper_name_plate.Nfc.Cmd
use paper_name_plate.Nfc.Irq
use paper_name_plate.Nfc.Driver.{NfcError, i2c, timeout, rx_error, Chip, ChipIo, on_bus, st25_addr}
use paper_name_plate.Nfc.Driver.{read_reg, write_reg, write_regs, modify_reg, command, load_fifo}
use paper_name_plate.Nfc.Driver.{fifo_status, read_fifo, clear_irq, wait_irq}
use paper_name_plate.Nfc.Setup.{NfcIo}

-- The ticks of the no-response timer for a time in ms, with `step` periods of the carrier each,
-- rounded up and clamped to 16 bits.
unfoldable pub ticks_of : ℕ → ℕ → ℕ
ticks_of step ms =
    let ticks = (ms * 13560000 + (step * 1000 - 1)) / (step * 1000) in max 1 (min ticks 0xFFFF)

-- The register of the number of bits to send.
unfoldable pub num_tx_of : ℕ → ℕ → ℕ
num_tx_of bytes bits = bit_or (bit_and bytes 0x1FF * 2 ^ 3) (bit_and bits 0x07)

module _ (b : Bus) where
  open b use {BusError, write}

  unfoldable pub set_fwt_ms : ℕ → ChipIo b (Unit {0})
  set_fwt_ms ms = do
    ctrl ← read_reg b Reg.timer_emv_control
    write_regs b Reg.no_response_timer1
        (u16_be_bytes (ticks_of (if not (bit_and ctrl 0x01 == 0) then 4096 else 64) ms))

  unfoldable pub load_pt_mem_a : List ℕ → ChipIo b (Unit {0})
  load_pt_mem_a bytes = on_bus b (write st25_addr (0xA0 ∷ bytes))

  unfoldable pub set_num_tx : ℕ → ℕ → ChipIo b (Unit {0})
  set_num_tx bytes bits = write_regs b Reg.num_tx_bytes1 (u16_be_bytes (num_tx_of bytes bits))

  unfoldable pub set_rx_crc_check : Bool → ChipIo b (Unit {0})
  set_rx_crc_check check = modify_reg b Reg.aux 0x80 (if check then 0 else 0x80)

  unfoldable pub target_transmit : List ℕ → ℕ → ChipIo b (Unit {0})
  unfolding set_num_tx
  target_transmit bytes bits =
      command b Cmd.clear_fifo
      >> load_fifo b bytes
      >> (if bits == 0
          then set_num_tx (length bytes % 2 ^ 16) 0 >> command b Cmd.transmit_with_crc
          else set_num_tx 0 bits >> command b Cmd.transmit_without_crc)

  -- A frame is sent, with the timer and the CRC check set.
  unfoldable pub send_frame : List ℕ → ℕ → ChipIo b (Unit {0})
  unfolding set_fwt_ms set_rx_crc_check set_num_tx
  send_frame tx timeout_ms =
      set_fwt_ms timeout_ms
      >> write_reg b Reg.iso14443a_nfc 0x00
      >> set_rx_crc_check true
      >> clear_irq b
      >> command b Cmd.clear_fifo
      >> load_fifo b tx
      >> set_num_tx (length tx % 2 ^ 16) 0
      >> command b Cmd.transmit_with_crc

  abbrev pub no_reply : ℕ → NfcError BusError
  no_reply flags = if bit_and flags Irq.error_mask == 0 then timeout else rx_error flags

  -- What was received, as much as fits the buffer; an error that the chip flags comes after it.
  unfoldable pub receive_frame : ℕ → ℕ → NfcIo b (List ℕ)
  receive_frame room flags = do
    status ← lift i2c (fifo_status b)
    bytes ← lift i2c (read_fifo b (min status.0 room))
    if bit_and flags Irq.error_mask == 0 then pure bytes else fail (rx_error flags)

  -- `transceive` into a buffer of `room` bytes
  unfoldable pub transceive : List ℕ → ℕ → ℕ → NfcIo b (List ℕ)
  unfolding send_frame receive_frame
  transceive tx room timeout_ms = do
    lift i2c (send_frame tx timeout_ms)
    flags ← lift i2c (wait_irq b Irq.rxe (timeout_ms + 2))
    if bit_and flags Irq.rxe == 0 then fail (no_reply flags) else receive_frame room flags

-- The driver as what isodep.rs and t2t_emu.rs ask of it.
abbrev pub link_of : Bus → Link
link_of b = record {
  State = Chip b;
  NfcError = NfcError b.BusError;
  transceive = λ s tx room timeout_ms. transceive b tx room timeout_ms s;
}

abbrev pub transmitter_of : Bus → Transmitter
transmitter_of b = record {
  State = Chip b;
  BusError = b.BusError;
  target_transmit = λ s bytes bits. target_transmit b bytes bits s;
}
