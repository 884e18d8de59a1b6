-- ===== src/IsoDep/Talk.antt =====
-- A conversation with a card, and that `exchange` follows it.
use paper_name_plate.Base.{
  ℕ, zero, suc, ◌+◌, ◌-◌, ◌*◌, ◌^◌, ◌≤◌, ◌≡◌, refl, ap, ◌∙◌, arith, min, max, List, [], ◌∷◌, ◌++◌,
  append_assoc,
}
use paper_name_plate.Base.{
  Bool, true, false, not, bit_and, bit_or, length, take, le→ltb, length-append, take-append_self,
}
use paper_name_plate.Base.Results.{ok}
use paper_name_plate.IsoDep.{
  Link, IsoDep, Outcome, bit_of, react, receive, rounds, with_block, exchange,
}

-- The timeout that a request for `wtxm` more waiting times sets.
abbrev pub extended : ℕ → ℕ → ℕ
extended fwt wtxm = min (min (fwt * max wtxm 1) (2 ^ 32 - 1)) 5000

module _ (l : Link) (fwt : ℕ) where
  open l use {State, transceive}

  -- The card answers the frame `tx` in `n` rounds with `response`: it asks for more time as often as
  -- it likes, and sends the response in parts, each after the one before was acknowledged. Two bytes
  -- of CRC, which the reader checked, end every reply. `block` is the number of the next block.
  pub data Talk
      : Bool
        → State
        → (tx : List ℕ) → (timeout : ℕ) → (response : List ℕ) → (n : ℕ) → State
        → Bool
        → Type 0 where
    wait :
        {block block' : Bool} {s s1 s' : State} {tx response : List ℕ} {timeout n : ℕ}
        → (wtxm : ℕ) (rest crc : List ℕ) → length crc ≡ 2
        → transceive s tx 260 timeout ≡ (s1, ok (0xF2 ∷ wtxm ∷ (rest ++ crc)))
        → Talk block s1
            (0xF2 ∷ bit_and wtxm 0x3F ∷ [])
            (extended fwt (bit_and wtxm 0x3F))
            response
            n
            s'
            block'
        → Talk block s tx timeout response (suc n) s' block'
    part :
        {block block' : Bool} {s s1 s' : State} {tx response : List ℕ} {timeout n : ℕ}
        → (piece crc : List ℕ) → length crc ≡ 2
        → transceive s tx 260 timeout ≡ (s1, ok (bit_or 0x12 (bit_of block) ∷ (piece ++ crc)))
        → Talk (not block) s1 (bit_or 0xA2 (bit_of (not block)) ∷ []) fwt response n s' block'
        → Talk block s tx timeout (piece ++ response) (suc n) s' block'
    last :
        {block : Bool} {s s' : State} {tx piece : List ℕ} {timeout : ℕ}
        → (crc : List ℕ) → length crc ≡ 2
        → transceive s tx 260 timeout ≡ (s', ok (bit_or 0x02 (bit_of block) ∷ (piece ++ crc)))
        → Talk block s tx timeout piece 1 s' (not block)

  strip :
      (piece crc : List ℕ)
      → length crc ≡ 2
      → take (suc (length (piece ++ crc)) - 3) (piece ++ crc) ≡ piece
  strip piece crc h = take-append_self piece crc _ (omega (arith, length-append piece crc))

  abbrev Next : Type 0
  Next = Bool → List ℕ → ℕ → List ℕ → Outcome l

  react_wait :
      (block : Bool) (wtxm : ℕ) (rest crc rsp : List ℕ) (s : State) (again : Next)
      → length crc ≡ 2
      → react l fwt block (0xF2 ∷ wtxm ∷ (rest ++ crc)) rsp s again
        ≡ again block (0xF2 ∷ bit_and wtxm 0x3F ∷ []) (extended fwt (bit_and wtxm 0x3F)) rsp
  unfolding react
  react_wait block wtxm rest crc rsp s again c =
      let e : length (0xF2 ∷ wtxm ∷ (rest ++ crc)) - 3 ≡ suc (length rest) =
        omega (arith, length-append rest crc) in
      rw (e, react) refl

  react_part :
      (block : Bool) (piece crc rsp : List ℕ) (s : State) (again : Next)
      → length crc ≡ 2
      → react l fwt block (bit_or 0x12 (bit_of block) ∷ (piece ++ crc)) rsp s again
        ≡ again (not block) (bit_or 0xA2 (bit_of (not block)) ∷ []) fwt (rsp ++ piece)
  unfolding react
  react_part true piece crc rsp s again c = rw (strip piece crc c, react) refl
  react_part false piece crc rsp s again c = rw (strip piece crc c, react) refl

  react_last :
      (block : Bool) (piece crc rsp : List ℕ) (s : State) (again : Next)
      → length crc ≡ 2
      → react l fwt block (bit_or 0x02 (bit_of block) ∷ (piece ++ crc)) rsp s again
        ≡ (s, not block, ok (rsp ++ piece))
  unfolding react
  react_last true piece crc rsp s again c = rw (strip piece crc c, react) refl
  react_last false piece crc rsp s again c = rw (strip piece crc c, react) refl

  rounds_reply :
      (guard : ℕ) (s s1 : State) (block : Bool) (tx rx : List ℕ) (timeout : ℕ) (rsp : List ℕ)
      → transceive s tx 260 timeout ≡ (s1, ok rx)
      → 3 ≤ length rx
      → rounds l fwt (suc guard) s block tx timeout rsp
        ≡ react l fwt block rx rsp s1 (λ b t w r. rounds l fwt guard s1 b t w r)
  unfolding rounds receive
  rounds_reply guard s s1 block tx rx timeout rsp e h =
      ap (λ p. receive l fwt block rsp p (λ s b t w r. rounds l fwt guard s b t w r)) e
      ∙ ground arith

  rounds-Talk :
      (guard n : ℕ) (block block' : Bool) (s s' : State) (tx : List ℕ) (timeout : ℕ)
      (rsp response : List ℕ)
      → Talk block s tx timeout response n s' block'
      → n ≤ guard
      → rounds l fwt guard s block tx timeout rsp ≡ (s', block', ok (rsp ++ response))
  rounds-Talk zero n block block' s s' tx timeout rsp response (wait w rest crc c e t) h =
      absurd (omega arith)
  rounds-Talk zero n block block' s s' tx timeout rsp response (part piece crc c e t) h =
      absurd (omega arith)
  rounds-Talk zero n block block' s s' tx timeout rsp response (last crc c e) h =
      absurd (omega arith)
  rounds-Talk (suc guard) _ block block' s s' tx timeout rsp response (wait w rest crc c e t) h =
      rounds_reply guard s _ block tx _ timeout rsp e (omega (arith, length-append rest crc))
      ∙ react_wait block w rest crc rsp _ _ c
      ∙ rounds-Talk guard _ block block' _ s' _ _ rsp response t (omega arith)
  rounds-Talk (suc guard) _ block block' s s' tx timeout rsp _
        (part {response = more} piece crc c e t) h =
      rounds_reply guard s _ block tx _ timeout rsp e (omega (arith, length-append piece crc))
      ∙ react_part block piece crc rsp _ _ c
      ∙ rounds-Talk guard _ (not block) block' _ s' _ _ (rsp ++ piece) more t (omega arith)
      ∙ ap (λ r. (s', block', ok r)) (append_assoc rsp piece more)
  rounds-Talk (suc guard) _ block _ s s' tx timeout rsp response (last crc c e) h =
      rounds_reply guard s _ block tx _ timeout rsp e (omega (arith, length-append response crc))
      ∙ react_last block response crc rsp _ _ c

-- A command that fits the card's frames, and that the card answers in 32 rounds at most, waiting
-- and chaining as it likes, gets the whole response, and the block number is the next one.
pub exchange-Talk :
    (l : Link) (dep : IsoDep) (s s' : l.State) (apdu response : List ℕ) (n : ℕ) (block' : Bool)
    → length apdu + 3 ≤ dep.ats.fsc
    → Talk l dep.ats.fwt_ms dep.block_num s
        (bit_or 0x02 (bit_of dep.block_num) ∷ apdu)
        dep.ats.fwt_ms
        response
        n
        s'
        block'
    → n ≤ 32
    → exchange l dep s apdu ≡ (s', record dep { block_num = block' }, ok response)
unfolding exchange
exchange-Talk l dep s s' apdu response n block' f t h =
    rw (le→ltb dep.ats.fsc (length apdu + 3) f) (
      ap (with_block l dep)
        (rounds-Talk l dep.ats.fwt_ms 32 n dep.block_num block' s s' _ _ [] response t h))
