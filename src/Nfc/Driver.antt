-- ===== src/Nfc/Driver.antt =====
-- `St25r3916` of st25r3916.rs: registers, FIFO and interrupts of the chip.
use paper_name_plate.Base.{ℕ, zero, suc, ◌-◌, ◌*◌, ◌/◌, ◌%◌, ◌^◌, List, [], ◌∷◌}
use paper_name_plate.Base.{bit_and, bit_or, ◌==◌, if◌then◌else◌, get_or}
use paper_name_plate.Base.Results.{Result, ok}
use paper_name_plate.Base.Io.{Io, pure, continue, ◌>>=◌, ◌>>◌, update, gets}
use paper_name_plate.Bus.{Bus, not_u8}
use paper_name_plate.Nfc.Reg
use paper_name_plate.Nfc.Cmd
use paper_name_plate.Nfc.Irq

abbrev pub st25_addr : ℕ
st25_addr = 0x50

pub data NfcError (E : Type 0) : Type 0 where
  i2c : E → NfcError E
  not_found : (identity : ℕ) → NfcError E
  oscillator timeout : NfcError E
  rx_error : (flags : ℕ) → NfcError E
  protocol collision : NfcError E

-- `u32::to_be_bytes`
abbrev pub u32_to_be : ℕ → List ℕ
u32_to_be v = v / 2 ^ 24 % 256 ∷ v / 2 ^ 16 % 256 ∷ v / 2 ^ 8 % 256 ∷ v % 256 ∷ []

-- `!hit` on a word of 32 bits
abbrev pub not_u32 : ℕ → ℕ
not_u32 hit = 2 ^ 32 - 1 - hit

module _ (b : Bus) where
  open b use {State, BusError, wait, write, write_read}

  -- The bus, and the driver's own fields: `pending_irq` holds the flags that were read from the
  -- chip and not yet consumed.
  pub record Chip : Type 0 where
    pub bus : State
    pub pending_irq : ℕ
    pub last_request_irq : ℕ

  abbrev pub ChipIo : Type 0 → Type 0
  ChipIo A = Io Chip BusError A

  -- A call of the bus.
  abbrev pub on_bus : {A : Type 0} → Io State BusError A → ChipIo A
  on_bus m c = let r = m c.bus in (record c { bus = r.0 }, r.1)

  abbrev pub delay_us : ℕ → ChipIo (Unit {0})
  delay_us us = update (λ c. record c { bus = wait us c.bus })

  abbrev pub delay_ms : ℕ → ChipIo (Unit {0})
  delay_ms ms = delay_us (ms * 1000)

  -- The byte that selects the reading of a register.
  abbrev pub read_op : ℕ → ℕ
  read_op r = bit_or 0x40 (bit_and r 0x3F)

  unfoldable pub read_regs : ℕ → ℕ → ChipIo (List ℕ)
  read_regs r n = on_bus (write_read st25_addr (read_op r ∷ []) n)

  unfoldable pub read_reg : ℕ → ChipIo ℕ
  unfolding read_regs
  read_reg r = do bs ← read_regs r 1; pure (get_or bs 0 0)

  unfoldable pub write_reg : ℕ → ℕ → ChipIo (Unit {0})
  write_reg r v = on_bus (write st25_addr (bit_and r 0x3F ∷ v ∷ []))

  unfoldable pub write_regs : ℕ → List ℕ → ChipIo (Unit {0})
  write_regs r bytes = on_bus (write st25_addr (bit_and r 0x3F ∷ bytes))

  -- `(v & !clear) | set`
  abbrev pub modified : ℕ → ℕ → ℕ → ℕ
  modified v clear set = bit_or (bit_and v (not_u8 clear)) set

  unfoldable pub modify_reg : ℕ → ℕ → ℕ → ChipIo (Unit {0})
  modify_reg r clear set = do
    v ← read_reg r
    if modified v clear set == v then pure tt else write_reg r (modified v clear set)

  unfoldable pub read_reg_b : ℕ → ChipIo ℕ
  read_reg_b r = do
    bs ← on_bus (write_read st25_addr (Cmd.space_b_access ∷ read_op r ∷ []) 1)
    pure (get_or bs 0 0)

  unfoldable pub write_reg_b : ℕ → ℕ → ChipIo (Unit {0})
  write_reg_b r v = on_bus (write st25_addr (Cmd.space_b_access ∷ bit_and r 0x3F ∷ v ∷ []))

  unfoldable pub command : ℕ → ChipIo (Unit {0})
  command c = on_bus (write st25_addr (c ∷ []))

  unfoldable pub load_fifo : List ℕ → ChipIo (Unit {0})
  load_fifo bytes = on_bus (write st25_addr (0x80 ∷ bytes))

  -- The number of bytes, and of extra bits of the last byte, in the FIFO.
  unfoldable pub fifo_status : ChipIo (ℕ × ℕ)
  fifo_status = do
    s ← read_regs Reg.fifo_status1 2
    pure (
      bit_or (get_or s 0 0) (bit_and (get_or s 1 0) 0xC0 * 2 ^ 2),
      bit_and (get_or s 1 0 / 2) 0x07,
    )

  unfoldable pub read_fifo : ℕ → ChipIo (List ℕ)
  read_fifo n = if n == 0 then pure [] else on_bus (write_read st25_addr (0x9F ∷ []) n)

  -- The flags of the four interrupt registers, as one word; reading clears them on the chip.
  abbrev pub irq_word : List ℕ → ℕ → ℕ → ℕ
  irq_word main error target =
      bit_or (bit_or (bit_or (get_or main 0 0 * 2 ^ 24) (get_or main 1 0 * 2 ^ 16)) (error * 2 ^ 8))
        target

  unfoldable pub read_irq : ChipIo ℕ
  read_irq = do
    error ← read_reg Reg.irq_error_wup
    main ← read_regs Reg.irq_main 2
    target ← read_reg Reg.irq_target
    pure (irq_word main error target)

  unfoldable pub clear_irq : ChipIo (Unit {0})
  clear_irq = update (λ c. record c { pending_irq = 0 }) >> read_regs Reg.irq_main 4 >> pure tt

  unfoldable pub write_irq_mask : ℕ → ChipIo (Unit {0})
  write_irq_mask mask = write_regs Reg.irq_mask_main (u32_to_be mask)

  -- `self.pending_irq |= self.read_irq()?`
  unfoldable pub fold_irq : ChipIo (Unit {0})
  fold_irq = do
    fresh ← read_irq
    update (λ c. record c { pending_irq = bit_or c.pending_irq fresh })

  unfoldable pub peek_irq : ChipIo ℕ
  peek_irq = do fold_irq; gets (λ c. c.pending_irq)

  -- The flags of `bits` that are pending, which are consumed.
  abbrev pub consume : ℕ → Chip → Chip × Result BusError ℕ
  consume bits c =
      let hit = bit_and c.pending_irq bits in
      (record c { pending_irq = bit_and c.pending_irq (not_u32 hit) }, ok hit)

  unfoldable pub take_irq : ℕ → ChipIo ℕ
  take_irq bits = do fold_irq; consume bits

  -- The flags that are pending, if one of `bits` is among them; these are consumed.
  abbrev pub hit_or : ℕ → Chip → Chip × Result BusError ℕ → Chip × Result BusError ℕ
  hit_or bits c otherwise =
      let hit = bit_and c.pending_irq bits in
      if hit == 0
      then otherwise
      else (record c { pending_irq = bit_and c.pending_irq (not_u32 hit) }, ok c.pending_irq)

  -- The loop of `wait_irq`, with `left` rounds of 250 us before the timeout.
  unfoldable pub wait_rounds : ℕ → ℕ → ChipIo ℕ
  wait_rounds zero bits c =
      continue (fold_irq c) (λ u d. hit_or bits d (d, ok (bit_or d.pending_irq Irq.nre)))
  wait_rounds (suc left) bits c =
      continue (fold_irq c)
        (λ u d. hit_or bits d (wait_rounds left bits (record d { bus = wait 250 d.bus })))

  -- `timeout_ms` in rounds: the test `elapsed >= timeout_ms * 4` ends the loop.
  unfoldable pub wait_irq : ℕ → ℕ → ChipIo ℕ
  wait_irq bits timeout_ms = wait_rounds (timeout_ms * 4) bits
