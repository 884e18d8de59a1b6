-- ===== src/Tag/Commands.antt =====
-- The commands of the emulated tag: `handle_command` of t2t_emu.rs.
pub mod Effects
use paper_name_plate.Base.{
  ℕ, zero, suc, ◌+◌, ◌-◌, ◌*◌, ◌%◌, List, [], ◌∷◌, Bool, true, false, ◌&&◌, ◌||◌,
}
use paper_name_plate.Base.{
  ltb, leb, ◌==◌, if◌then◌else◌, length, get_or, take, drop, replicate, write_at,
}
use paper_name_plate.Base.Results.{Result, ok, err}
use paper_name_plate.Tag.Memory.{pages, mem_bytes, user_first_page, user_last_page}

-- What `handle_command` reads and writes of `T2tEmulator`.
pub record Tag : Type 0 where
  pub memory : List ℕ
  pub dirty : Bool

pub data CmdResult : Type 0 where
  stay halt drop_out : CmdResult

-- The frame that is sent, with the number of its bits if they make no whole bytes, and the result.
pub data Answer : Type 0 where
  send : List ℕ → (bits : ℕ) → CmdResult → Answer
  silent : CmdResult → Answer

abbrev pub version_bytes : List ℕ
version_bytes = 0x00 ∷ 0x04 ∷ 0x04 ∷ 0x02 ∷ 0x01 ∷ 0x00 ∷ 0x13 ∷ 0x03 ∷ []

abbrev pub nak : Answer
nak = send (0x00 ∷ []) 4 drop_out

-- `n` bytes from index `i` on, round the end of the memory.
abbrev pub wrapped : List ℕ → ℕ → ℕ → List ℕ
wrapped m i zero = []
wrapped m i (suc n) = get_or m (i % mem_bytes) 0 ∷ wrapped m (i + 1) n

unfoldable pub read_pages : Tag → ℕ → Answer
read_pages t start = if leb pages start then nak else send (wrapped t.memory (start * 4) 16) 0 stay

unfoldable pub fast_read : Tag → ℕ → ℕ → Answer
fast_read t from to =
    if ltb to from || (leb pages to || ltb 512 ((to - from + 1) * 4))
    then nak
    else send (take ((to + 1) * 4 - from * 4) (drop (from * 4) t.memory)) 0 stay

-- Page 2 is acknowledged and left alone.
unfoldable pub write_page : Tag → ℕ → List ℕ → Tag × Answer
write_page t page bytes =
    let acked = send (0x0A ∷ []) 4 stay in
    if ltb page 2 || leb pages page
    then (t, nak)
    else if leb 3 page
    then (
      record t {
        memory = write_at t.memory (page * 4) bytes;
        dirty = if leb user_first_page page && leb page user_last_page then true else t.dirty;
      },
      acked,
    )
    else (t, acked)

-- The command `op` with its arguments: the tag behind it, and the answer.
unfoldable pub answer : Tag → ℕ → List ℕ → Tag × Answer
unfolding write_page
answer t op args =
    if op == 0x30 && length args == 1
    then (t, read_pages t (get_or args 0 0))
    else if op == 0x3A && length args == 2
    then (t, fast_read t (get_or args 0 0) (get_or args 1 0))
    else if op == 0xA2 && length args == 5
    then write_page t (get_or args 0 0) (take 4 (drop 1 args))
    else if op == 0x60 && length args == 0
    then (t, send version_bytes 0 stay)
    else if op == 0x3C && length args == 1
    then (t, send (replicate 32 0) 0 stay)
    else if op == 0x50
    then (t, silent halt)
    else (t, nak)

-- What the tag asks of the chip: `target_transmit` sends a frame, or fails.
pub record Transmitter : Type 1 where
  pub State : Type 0
  pub BusError : Type 0
  pub target_transmit : State → List ℕ → (bits : ℕ) → State × Result BusError (Unit {0})

module _ (x : Transmitter) where
  open x use {State, BusError, target_transmit}

  abbrev pub sent :
      CmdResult → State × Result BusError (Unit {0}) → State × Result BusError CmdResult
  sent r (s, ok u) = (s, ok r)
  sent r (s, err e) = (s, err e)

  unfoldable pub transmit_answer : State → Answer → State × Result BusError CmdResult
  transmit_answer s (send frame bits r) = sent r (target_transmit s frame bits)
  transmit_answer s (silent r) = (s, ok r)

  -- `handle_command` on a frame of one byte at least, which is all that `update` passes on.
  unfoldable pub handle_command : State → Tag → ℕ → List ℕ → State × Tag × Result BusError CmdResult
  unfolding answer transmit_answer
  handle_command s t op args =
      let a = answer t op args in let r = transmit_answer s a.1 in (r.0, a.0, r.1)
