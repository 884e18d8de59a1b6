-- ===== src/IsoDep.antt =====
-- isodep.rs: the initiator's side of ISO 14443-4, over the reader's `transceive`.
pub mod Talk
pub mod Activation
use paper_name_plate.Base.{
  ℕ, zero, suc, ◌+◌, ◌-◌, ◌*◌, ◌/◌, ◌^◌, ◌≡◌, min, max, List, [], ◌∷◌, ◌++◌, Bool, true, false, not,
  ◌&&◌, ◌||◌,
}
use paper_name_plate.Base.{
  bit_and, bit_or, ltb, leb, ◌==◌, if◌then◌else◌, length, get_or, take, drop,
}
use paper_name_plate.Base.Results.{Result, ok, err}

-- What isodep.rs asks of `St25r3916`: `transceive` sends a frame, and returns the reply that it
-- put into a buffer of `room` bytes, or its own error.
pub record Link : Type 1 where
  pub State : Type 0
  pub NfcError : Type 0
  pub transceive : State → (tx : List ℕ) → (room timeout : ℕ) → State × Result NfcError (List ℕ)

pub data Error (E : Type 0) : Type 0 where
  nfc : E → Error E
  protocol retries : Error E

pub record Ats : Type 0 where
  pub raw : List ℕ
  pub fwt_ms : ℕ
  pub fsc : ℕ

pub record IsoDep : Type 0 where
  pub block_num : Bool
  pub ats : Ats

abbrev pub fsci_table : List ℕ
fsci_table = 16 ∷ 24 ∷ 32 ∷ 40 ∷ 48 ∷ 64 ∷ 96 ∷ 128 ∷ 256 ∷ []

-- `((302u64 << fwi) / 1000).clamp(5, 3000)`
abbrev pub fwt_of : ℕ → ℕ
fwt_of tb = max 5 (min (302 * 2 ^ min (tb / 16) 14 / 1000) 3000)

-- The ATS in `bytes`: its first byte is its length.
unfoldable pub parse_ats : List ℕ → Ats
parse_ats bytes =
    let tl = get_or bytes 0 0 in
    let t0 = get_or bytes 1 0 in
    let idx = if bit_and t0 0x10 == 0 then 2 else 3 in
    if leb 2 tl
    then record {
      raw = take tl bytes;
      fwt_ms = if not (bit_and t0 0x20 == 0) && ltb idx tl then fwt_of (get_or bytes idx 0) else 40;
      fsc = get_or fsci_table (min (bit_and t0 0x0F) 8) 0;
    }
    else record { raw = take tl bytes; fwt_ms = 40; fsc = 32 }

abbrev pub bit_of : Bool → ℕ
bit_of b = if b then 1 else 0

module _ (l : Link) where
  open l use {State, NfcError, transceive}

  -- What answers RATS, the CRC taken off, is an ATS, or the activation fails.
  unfoldable pub activated :
      State × Result NfcError (List ℕ) → State × Result (Error NfcError) IsoDep
  unfolding parse_ats
  activated (s, err e) = (s, err (nfc e))
  activated (s, ok rx) =
      let bytes = take (length rx - 2) rx in
      let tl = get_or bytes 0 0 in
      if ltb (length rx) 3
      then (s, err protocol)
      else if ltb tl 1 || ltb (length bytes) tl
      then (s, err protocol)
      else (s, ok (record { block_num = false; ats = parse_ats bytes }))

  -- `activate`
  unfoldable pub activate : State → State × Result (Error NfcError) IsoDep
  unfolding activated
  activate s = activated (transceive s (0xE0 ∷ 0x80 ∷ []) 32 70)

  -- The state of the reader, the block number, and the response.
  abbrev pub Outcome : Type 0
  Outcome = State × Bool × Result (Error NfcError) (List ℕ)

  -- What is done with a reply of 3 bytes at least; `again` is the next round, with a block
  -- number, a frame, a timeout and what has been received.
  unfoldable pub react :
      ℕ → Bool → List ℕ → List ℕ → State → (Bool → List ℕ → ℕ → List ℕ → Outcome) → Outcome
  react fwt block rx rsp s again =
      let pcb = get_or rx 0 0 in
      let payload = take (length rx - 3) (drop 1 rx) in
      let wtxm = bit_and (get_or payload 0 1) 0x3F in
      if bit_and pcb 0xF7 == 0xF2
      then again block (0xF2 ∷ wtxm ∷ []) (min (min (fwt * max wtxm 1) (2 ^ 32 - 1)) 5000) rsp
      else if bit_and pcb 0xE2 == 0x02
      then (if not (bit_and pcb 0x01 == bit_of block)
          then (s, block, err protocol)
          else if not (bit_and pcb 0x10 == 0)
          then again (not block) (bit_or 0xA2 (bit_of (not block)) ∷ []) fwt (rsp ++ payload)
          else (s, not block, ok (rsp ++ payload)))
      else (s, block, err protocol)

  -- What `transceive` returned ends the loop, or is reacted to.
  unfoldable pub receive :
      ℕ
      → Bool
      → List ℕ
      → State × Result NfcError (List ℕ)
      → (State → Bool → List ℕ → ℕ → List ℕ → Outcome)
      → Outcome
  unfolding react
  receive fwt block rsp (s, err e) again = (s, block, err (nfc e))
  receive fwt block rsp (s, ok rx) again =
      if ltb (length rx) 3 then (s, block, err protocol) else react fwt block rx rsp s (again s)

  -- The loop of `exchange`: `guard` lets 32 rounds pass.
  unfoldable pub rounds : ℕ → ℕ → State → Bool → List ℕ → ℕ → List ℕ → Outcome
  rounds fwt zero s block tx timeout rsp = (s, block, err retries)
  rounds fwt (suc guard) s block tx timeout rsp =
      receive fwt block rsp (transceive s tx 260 timeout)
        (λ (s1 : State) (b : Bool) (t : List ℕ) (w : ℕ) (r : List ℕ). rounds fwt guard s1 b t w r)

  abbrev pub with_block : IsoDep → Outcome → State × IsoDep × Result (Error NfcError) (List ℕ)
  with_block dep (s, b, r) = (s, record dep { block_num = b }, r)

  -- `exchange`: the response; on an error the caller's buffer is not read.
  unfoldable pub exchange :
      IsoDep → State → List ℕ → State × IsoDep × Result (Error NfcError) (List ℕ)
  unfolding rounds
  exchange dep s apdu =
      if ltb dep.ats.fsc (length apdu + 3)
      then (s, dep, err protocol)
      else with_block dep (
          rounds dep.ats.fwt_ms 32 s dep.block_num (bit_or 0x02 (bit_of dep.block_num) ∷ apdu)
            dep.ats.fwt_ms [])

  -- `deselect`
  unfoldable pub deselect : IsoDep → State → State × Result (Error NfcError) (Unit {0})
  deselect dep s =
      let r = transceive s (0xC2 ∷ []) 8 dep.ats.fwt_ms in
      let s1 = r.0 in
      elim r.1 [
        | err e ↦ (s1, err (nfc e))
        | ok rx ↦
            if leb 3 (length rx) && (get_or rx 0 0 == 0xC2) then (s1, ok tt) else (s1, err protocol)
      ]
