-- ===== src/Reader/Type4.antt =====
-- `read_type4` of ndef.rs: the NDEF message of a Type 4 tag, over `IsoDep::exchange`.
pub mod Session
pub mod Ends
use paper_name_plate.Base.{ℕ, zero, suc, ◌+◌, ◌-◌, ◌/◌, ◌%◌, min, max, List, [], ◌∷◌, ◌++◌, not}
use paper_name_plate.Base.{ltb, ◌==◌, if◌then◌else◌, length, get_or, take}
use paper_name_plate.Base.Bytes.{u16_be}
use paper_name_plate.Base.Results.{Result, ok, err}
use paper_name_plate.IsoDep.{Link, IsoDep, Error}
use paper_name_plate.IsoDep.{exchange as iso_exchange}

-- The exchange of commands and responses that ndef.rs works on.
pub record Apdus : Type 1 where
  pub State : Type 0
  pub DepError : Type 0
  pub exchange : State → List ℕ → State × Result DepError (List ℕ)

-- The exchange of isodep.rs.
abbrev pub of_isodep : Link → Apdus
of_isodep l = record {
  State = IsoDep × l.State;
  DepError = Error l.NfcError;
  exchange = λ s apdu. let r = iso_exchange l s.0 s.1 apdu in ((r.1, r.0), r.2);
}

pub data Step : Type 0 where
  select_app select_cc read_cc select_ndef read_nlen read_ndef : Step

-- `out_of_fuel` is no error of the code but the end of the fuel.
pub data ReadError (E : Type 0) : Type 0 where
  dep : E → ReadError E
  status : Step → (sw : ℕ) → ReadError E
  malformed out_of_fuel : ReadError E

abbrev pub ndef_aid : List ℕ
ndef_aid = 0xD2 ∷ 0x76 ∷ 0x00 ∷ 0x00 ∷ 0x85 ∷ 0x01 ∷ 0x01 ∷ []

abbrev pub select_app_apdu : List ℕ
select_app_apdu = 0x00 ∷ 0xA4 ∷ 0x04 ∷ 0x00 ∷ length ndef_aid % 256 ∷ (ndef_aid ++ (0x00 ∷ []))

abbrev pub select_file : ℕ → ℕ → List ℕ
select_file hi lo = 0x00 ∷ 0xA4 ∷ 0x00 ∷ 0x0C ∷ 0x02 ∷ hi ∷ lo ∷ []

-- READ BINARY, with the offset as a `u16`.
abbrev pub read_binary : ℕ → ℕ → List ℕ
read_binary off n = 0x00 ∷ 0xB0 ∷ off / 256 % 256 ∷ off % 256 ∷ n % 256 ∷ []

-- `cc[3..5]`, clamped
abbrev pub mle_of : List ℕ → ℕ
mle_of cc = max 15 (min (u16_be (get_or cc 3 0) (get_or cc 4 0)) 246)

-- `check`: the status word at the end of a response.
unfoldable pub check : {E : Type 0} → Step → List ℕ → Result (ReadError E) (List ℕ)
check step rsp =
    let sw = u16_be (get_or rsp (length rsp - 2) 0) (get_or rsp (length rsp - 1) 0) in
    if ltb (length rsp) 2
    then err malformed
    else if not (sw == 0x9000)
    then err (status step sw)
    else ok rsp

module _ (a : Apdus) where
  open a use {State, DepError, exchange}

  abbrev pub Read : Type 0
  Read = State × Result (ReadError DepError) (List ℕ)

  -- The `?` of the code.
  unfoldable pub and_then : Read → (State → List ℕ → Read) → Read
  and_then (s, err e) f = (s, err e)
  and_then (s, ok rsp) f = f s rsp

  unfoldable pub checked : Step → State × Result DepError (List ℕ) → Read
  checked step (s, err e) = (s, err (dep e))
  checked step (s, ok rsp) = (s, check step rsp)

  unfoldable pub command : State → Step → List ℕ → Read
  unfolding checked
  command s step apdu = checked step (exchange s apdu)

  abbrev pub chunk_len : ℕ → ℕ → List ℕ → ℕ
  chunk_len nlen mle msg = min (min (nlen - length msg) mle) 255

  -- The bytes of a response that were asked for join the message.
  unfoldable pub keep_chunk : ℕ → List ℕ → (State → List ℕ → Read) → State → List ℕ → Read
  keep_chunk chunk msg again s rsp =
      if ltb (length rsp) (2 + chunk) then (s, err malformed) else again s (msg ++ take chunk rsp)

  -- The loop that reads the message.
  unfoldable pub read_from : ℕ → State → ℕ → ℕ → ℕ → List ℕ → Read
  read_from zero s nlen mle offset msg =
      (s, if ltb (length msg) nlen then err out_of_fuel else ok msg)
  read_from (suc fuel) s nlen mle offset msg =
      let chunk = chunk_len nlen mle msg in
      let again = λ (s1 : State) (m : List ℕ). read_from fuel s1 nlen mle (offset + chunk) m in
      if ltb (length msg) nlen
      then and_then (command s read_ndef (read_binary offset chunk)) (keep_chunk chunk msg again)
      else (s, ok msg)

  -- The length of the message, then the message; each round reads a byte at least.
  unfoldable pub read_message : State → ℕ → Read
  unfolding read_from
  read_message s mle = and_then (command s read_nlen (read_binary 0 2)) (λ s1 rsp.
      let nlen = u16_be (get_or rsp 0 0) (get_or rsp 1 0) in
      if ltb (length rsp) 4 then (s1, err malformed) else read_from nlen s1 nlen mle 2 [])

  -- What follows the capability container.
  unfoldable pub with_cc : State → List ℕ → Read
  unfolding read_message
  with_cc s cc =
      if ltb (length cc) (2 + 15)
      then (s, err malformed)
      else if not (get_or cc 7 0 == 0x04)
      then (s, err malformed)
      else and_then (command s select_ndef (select_file (get_or cc 9 0) (get_or cc 10 0)))
          (λ s1 rsp. read_message s1 (mle_of cc))

  unfoldable pub read_type4 : State → Read
  unfolding with_cc
  read_type4 s = and_then (command s select_app select_app_apdu) (λ s1 rsp1.
      and_then (command s1 select_cc (select_file 0xE1 0x03))
        (λ s2 rsp2. and_then (command s2 read_cc (read_binary 0 0x0F)) with_cc))
