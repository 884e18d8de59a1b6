-- ===== src/Nfc/Poll.antt =====
-- Reader side of st25r3916.rs: request, anticollision, SELECT, HALT and READ of a tag.
use paper_name_plate.Base.{
  ℕ, zero, suc, ◌+◌, ◌-◌, ◌*◌, ◌/◌, ◌%◌, ◌^◌, min, List, [], ◌∷◌, Bool, true, false, not,
}
use paper_name_plate.Base.{Option, none, some, bit_and, bit_or, leb, ltb, ◌==◌, ◌&&◌, if◌then◌else◌}
use paper_name_plate.Base.{length, get_or, take, drop, set, replicate, write_at}
use paper_name_plate.Base.Bytes.{u16_le}
use paper_name_plate.Base.Io.{Io, pure, fail, ◌>>=◌, ◌>>◌, update, lift}
use paper_name_plate.Bus.{Bus}
use paper_name_plate.Nfc.Reg
use paper_name_plate.Nfc.Cmd
use paper_name_plate.Nfc.Irq
use paper_name_plate.Nfc.Driver.{NfcError, i2c, protocol, collision, Chip, ChipIo, delay_us}
use paper_name_plate.Nfc.Driver.{
  read_reg, write_reg, command, load_fifo, fifo_status, read_fifo, clear_irq, wait_irq,
}
use paper_name_plate.Nfc.Setup.{NfcIo}
use paper_name_plate.Nfc.Transceive.{set_fwt_ms, set_num_tx, set_rx_crc_check, transceive, no_reply}

-- `uid` has 10 bytes, of which the first `uid_len` count.
pub record NfcaTag : Type 0 where
  pub atqa : ℕ
  pub sak : ℕ
  pub uid : List ℕ
  pub uid_len : ℕ

abbrev pub uid_bytes : NfcaTag → List ℕ
uid_bytes tag = take tag.uid_len tag.uid

abbrev pub is_iso14443_4 : NfcaTag → Bool
is_iso14443_4 tag = not (bit_and tag.sak 0x20 == 0)

abbrev pub has_random_uid : NfcaTag → Bool
has_random_uid tag = tag.uid_len == 4 && get_or tag.uid 0 0 == 0x08

-- An error of the driver, or an index out of range, which is no error of the code but stops it.
pub data PollError (E : Type 0) : Type 0 where
  failed : NfcError E → PollError E
  out_of_range : PollError E

-- The variables of the loop of `nfca_anticollision_level`.
pub record Level : Type 0 where
  pub frame : List ℕ
  pub rbuf : List ℕ
  pub sbytes : ℕ
  pub sbits : ℕ
  pub rbuf_offset : ℕ
  pub coll_byte : ℕ

abbrev pub level_start : ℕ → Level
level_start sel = record {
  frame = sel ∷ 0x20 ∷ replicate 5 0;
  rbuf = replicate 5 0;
  sbytes = 2;
  sbits = 0;
  rbuf_offset = 0;
  coll_byte = 1;
}

-- A collision in what was received, with the `collision_status` register: the frame that names the
-- bits so far. `none` is the index `frame[sbytes]` out of range.
unfoldable pub on_collision : ℕ → ℕ → Level → Option Level
on_collision cd actual l =
    let cbits = cd / 2 % 8 in
    let coll_byte = bit_or (get_or l.rbuf (l.rbuf_offset + actual - 1) 0) (2 ^ cbits) in
    let sbytes = cd / 2 ^ 4 % 16 + (if cbits == 7 then 1 else 0) in
    let sbits = (cbits + 1) % 8 in
    let frame = set l.frame 1 (bit_or (sbytes * 2 ^ 4 % 256) sbits) in
    let frame' = write_at frame (2 + l.rbuf_offset) (take actual (drop l.rbuf_offset l.rbuf)) in
    if leb 7 sbytes
    then none
    else some record l {
      frame = set frame' sbytes coll_byte;
      sbytes = sbytes;
      sbits = sbits;
      rbuf_offset = actual - 1;
      coll_byte = coll_byte;
    }

-- The bits of the byte in which the last collision was.
unfoldable pub join_split : Level → Level
join_split l =
    let split = get_or l.rbuf l.rbuf_offset 0 in
    if l.sbits == 0 then l else record l {
      rbuf = set l.rbuf l.rbuf_offset (bit_or (split / 2 ^ l.sbits * 2 ^ l.sbits) l.coll_byte);
    }

module _ (b : Bus) where
  open b use {BusError}

  abbrev pub PollIo : Type 0 → Type 0
  PollIo A = Io (Chip b) (PollError BusError) A

  -- Up to `n` looks for two bytes in the FIFO, 100 us apart.
  unfoldable pub late_rxe : ℕ → ChipIo b Bool
  late_rxe zero = pure false
  late_rxe (suc n) = do
    s ← fifo_status b
    if leb 2 s.0 then pure true else (delay_us b 100 >> late_rxe n)

  abbrev pub send_request : Bool → ChipIo b (Unit {0})
  send_request wakeup =
      set_fwt_ms b 4
      >> write_reg b Reg.iso14443a_nfc 0x01
      >> set_rx_crc_check b false
      >> clear_irq b
      >> command b Cmd.clear_fifo
      >> command b (if wakeup then Cmd.transmit_wupa else Cmd.transmit_reqa)

  -- The flags behind the wait of `nfca_request`, with `rxe` if the answer came late.
  unfoldable pub request_flags : ChipIo b ℕ
  unfolding late_rxe
  request_flags = do
    flags ← wait_irq b (bit_or (bit_or Irq.rxe Irq.rxs) Irq.col) 6
    late ←
        if (bit_and flags Irq.rxe == 0) && not (bit_and flags Irq.rxs == 0)
        then late_rxe 40
        else pure false
    pure (if late then bit_or flags Irq.rxe else flags)

  -- The answer to a request, if there are two bytes of it.
  unfoldable pub read_atqa : ChipIo b (Option ℕ)
  read_atqa = do
    s ← fifo_status b
    if ltb s.0 2
        then pure none
        else (do bs ← read_fifo b 2; pure (some (u16_le (get_or bs 0 0) (get_or bs 1 0))))

  unfoldable pub nfca_request : Bool → ChipIo b (Option ℕ)
  unfolding request_flags read_atqa
  nfca_request wakeup = do
    send_request wakeup
    flags ← request_flags
    update (λ c. record c { last_request_irq = flags })
    if bit_and flags Irq.rxe == 0 then pure none else read_atqa

  abbrev pub send_level : Level → ChipIo b (Unit {0})
  send_level l =
      clear_irq b
      >> command b Cmd.clear_fifo
      >> load_fifo b (take (l.sbytes + (if l.sbits == 0 then 0 else 1)) l.frame)
      >> set_num_tx b l.sbytes l.sbits
      >> command b Cmd.transmit_without_crc

  -- What was received goes into `rbuf`; with it come its length and the collision status.
  unfoldable pub receive_level : Level → NfcIo b (Level × ℕ × ℕ)
  receive_level l = do
    s ← lift i2c (fifo_status b)
    let actual = min s.0 (5 - l.rbuf_offset)
    bytes ← if actual == 0 then fail protocol else lift i2c (read_fifo b actual)
    cd ← lift i2c (read_reg b Reg.collision_status)
    pure (record l { rbuf = write_at l.rbuf l.rbuf_offset bytes }, actual, cd)

  -- One round: the frame, and what the field answers.
  unfoldable pub ask_level : Level → NfcIo b (Bool × Level × ℕ × ℕ)
  unfolding receive_level
  ask_level l = do
    lift i2c (send_level l)
    flags ← lift i2c (wait_irq b (bit_or Irq.rxe Irq.col) 10)
    r ←
        if bit_and flags (bit_or Irq.rxe Irq.col) == 0
        then fail (no_reply b flags)
        else receive_level l
    pure (not (bit_and flags Irq.col == 0), r.0, r.1, r.2)

  -- `n` rounds of the loop of `nfca_anticollision_level`
  unfoldable pub level_rounds : ℕ → Level → PollIo (List ℕ)
  unfolding ask_level on_collision join_split
  level_rounds zero l = fail (failed collision)
  level_rounds (suc n) l = do
    r ← lift failed (ask_level l)
    (if r.0
        then elim (on_collision r.3 r.2 r.1) [
          | none ↦ fail out_of_range
          | some next ↦ level_rounds n (join_split next)
        ]
        else pure (join_split r.1).rbuf)

  unfoldable pub nfca_anticollision_level : ℕ → PollIo (List ℕ)
  unfolding level_rounds
  nfca_anticollision_level sel = do
    lift (λ e. failed (i2c e))
        (set_fwt_ms b 8 >> write_reg b Reg.iso14443a_nfc 0x01 >> set_rx_crc_check b true)
    level_rounds 32 (level_start sel)

  abbrev pub select_frame : ℕ → List ℕ → List ℕ
  select_frame sel r = sel ∷ 0x70 ∷ r

  -- The part of the UID in the answer of level `lv`; 0x88 says that more follows.
  unfoldable pub with_part : ℕ → List ℕ → NfcaTag → NfcaTag
  with_part lv r tag = record tag {
    uid =
        write_at tag.uid ((lv - 1) * 3)
          (if get_or r 0 0 == 0x88 then take 3 (drop 1 r) else take 4 r);
  }

  abbrev pub len_of_level : ℕ → ℕ
  len_of_level lv = if lv == 1 then 4 else if lv == 2 then 7 else 10

  -- The first byte of the answer to SELECT, behind level `lv`.
  unfoldable pub select_level : ℕ → NfcaTag → PollIo NfcaTag
  unfolding nfca_anticollision_level with_part
  select_level lv tag = do
    r ← nfca_anticollision_level (0x91 + lv * 2)
    sak ← lift failed (transceive b (select_frame (0x91 + lv * 2) r) 3 8)
    (if length sak == 0
        then fail (failed protocol)
        else pure (record (with_part lv r tag) { sak = get_or sak 0 0 }))

  -- The levels from `lv` on, `n` of them.
  unfoldable pub select_levels : ℕ → ℕ → NfcaTag → PollIo NfcaTag
  unfolding select_level
  select_levels zero lv tag = fail (failed protocol)
  select_levels (suc n) lv tag = do
    t ← select_level lv tag
    (if bit_and t.sak 0x04 == 0
        then pure (record t { uid_len = len_of_level lv })
        else select_levels n (lv + 1) t)

  unfoldable pub nfca_select : ℕ → PollIo NfcaTag
  unfolding select_levels
  nfca_select atqa =
      select_levels 3 1 (record { atqa = atqa; sak = 0; uid = replicate 10 0; uid_len = 0 })

  unfoldable pub nfca_halt : ChipIo b (Unit {0})
  nfca_halt =
      set_fwt_ms b 2
      >> write_reg b Reg.iso14443a_nfc 0x00
      >> set_rx_crc_check b true
      >> clear_irq b
      >> command b Cmd.clear_fifo
      >> load_fifo b (0x50 ∷ 0x00 ∷ [])
      >> set_num_tx b 2 0
      >> command b Cmd.transmit_with_crc
      >> wait_irq b Irq.txe 4
      >> pure tt

  unfoldable pub nfca_poll : PollIo (Option NfcaTag)
  unfolding nfca_request nfca_select
  nfca_poll = do
    atqa ← lift (λ e. failed (i2c e)) (nfca_request true)
    elim atqa [ none ↦ pure none | some a ↦ nfca_select a >>= λ t. pure (some t) ]

  unfoldable pub t2t_read : ℕ → NfcIo b (List ℕ)
  t2t_read block = do
    bytes ← transceive b (0x30 ∷ block ∷ []) 18 10
    if ltb (length bytes) 16 then fail protocol else pure (take 16 bytes)
