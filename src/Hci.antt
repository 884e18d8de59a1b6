-- ===== src/Hci.antt =====
-- `BufferedHci` of app/ble.rs: whole packets from the radio, served byte by byte.
pub mod Arrived
pub mod Merge
pub mod Stream
use paper_name_plate.Base.{
  ℕ, zero, suc, ◌+◌, ◌-◌, ◌/◌, ◌%◌, ◌^◌, min, ◌≤◌, ◌≡◌, List, [], ◌∷◌, ◌++◌, Bool, not,
}
use paper_name_plate.Base.{ltb, leb, ◌==◌, ◌&&◌, ◌||◌, if◌then◌else◌}
use paper_name_plate.Base.{length, get_or, take, drop, write_at}
use paper_name_plate.Base.Bytes.{u16_le, u16_le_bytes}
use paper_name_plate.Base.Results.{Result, ok, err}

-- `BleConnector` of esp-radio, and the clock: `next` gives the next packet into a buffer of `room`
-- bytes, or nothing if none is there. As documented, a packet fits the buffer.
pub record Radio : Type 1 where
  pub State : Type 0
  pub HciError : Type 0
  pub next : State → (room : ℕ) → State × Result HciError (List ℕ)
  pub write : State → List ℕ → State × Result HciError ℕ
  pub millis : State → ℕ
  pub next_fits : (s : State) (room : ℕ) (p : List ℕ) → (next s room).1 ≡ ok p → length p ≤ room

-- `out_of_rounds` is no error of the code but the end of the rounds that the model gives its loop.
pub data HciEnd (E : Type 0) : Type 0 where
  hci : E → HciEnd E
  out_of_rounds : HciEnd E

abbrev pub hci_acl : ℕ
hci_acl = 0x02

abbrev pub acl_hdr : ℕ
acl_hdr = 5

abbrev pub buf_len : ℕ
buf_len = 1024

abbrev pub stray_room : ℕ
stray_room = 512

abbrev pub acl_pb_flag : List ℕ → ℕ
acl_pb_flag pkt = get_or pkt 2 0 / 2 ^ 4 % 4

-- Does a packet that came during the merging continue the first one?
unfoldable pub is_continuation : List ℕ → Bool
is_continuation p = leb acl_hdr (length p) && (get_or p 0 0 == hci_acl && acl_pb_flag p == 1)

-- Is a packet, the first of a call of `fill`, to be passed on as it is? Its own length, and the one
-- of the message that it starts, with its four bytes of header, say whether fragments follow.
unfoldable pub is_whole : List ℕ → Bool
is_whole p =
    ltb (length p) (acl_hdr + 4)
    || not (get_or p 0 0 == hci_acl)
    || acl_pb_flag p == 1
    || leb (u16_le (get_or p 5 0) (get_or p 6 0) + 4) (u16_le (get_or p 3 0) (get_or p 4 0))

-- The new length goes into the header, and the strays behind the message.
unfoldable pub close_packet : List ℕ → List ℕ → List ℕ
close_packet merged stray =
    write_at merged 3 (u16_le_bytes ((length merged - acl_hdr) % 2 ^ 16))
    ++ take (min (length stray) (buf_len - length merged)) stray

abbrev pub want_of : List ℕ → ℕ
want_of p = u16_le (get_or p 5 0) (get_or p 6 0) + 4

module _ (c : Radio) where
  open c use {State, HciError, next, write, millis}

  -- `bytes` are the first `end` bytes of the buffer; no other is read.
  pub record BufferedHci : Type 0 where
    pub inner : State
    pub bytes : List ℕ
    pub start : ℕ

  -- The variables of the merging.
  pub record Gather : Type 0 where
    pub radio : State
    pub merged : List ℕ
    pub stray : List ℕ

  -- A packet joins the message, as far as the buffer has room, or the strays, or is dropped.
  unfoldable pub take_packet : List ℕ → Gather → Gather
  unfolding is_continuation
  take_packet p g =
      let payload = drop acl_hdr p in
      if is_continuation p
      then record g {
        merged = g.merged ++ take (min (length payload) (buf_len - length g.merged)) payload;
      }
      else if leb (length g.stray + length p) stray_room
      then record g { stray = g.stray ++ p }
      else g

  abbrev pub Gathered : Type 0
  Gathered = Gather × Result (HciEnd HciError) (Unit {0})

  -- What one call of `next` does to the merging; an empty answer behind the deadline ends it.
  abbrev pub after_next :
      ℕ → (Gather → Gathered) → Gather → State × Result HciError (List ℕ) → Gathered
  after_next deadline again g (s, err e) = (record g { radio = s }, err (hci e))
  after_next deadline again g (s, ok []) =
      if ltb deadline (millis s)
      then (record g { radio = s }, ok tt)
      else again (record g { radio = s })
  after_next deadline again g (s, ok (b ∷ p)) = again (take_packet (b ∷ p) (record g { radio = s }))

  -- `rounds` rounds of the loop of `fill`
  unfoldable pub gather : ℕ → (deadline want : ℕ) → Gather → Gathered
  gather zero deadline want g = (g, err out_of_rounds)
  gather (suc rounds) deadline want g =
      let again = λ (h : Gather). gather rounds deadline want h in
      if ltb (length g.merged - acl_hdr) want
      then after_next deadline again g (next g.radio 512)
      else (g, ok tt)

  abbrev pub Filled : Type 0
  Filled = BufferedHci × Result (HciEnd HciError) (Unit {0})

  abbrev pub closed : Gathered → Filled
  closed (g, ok u) =
      (record { inner = g.radio; bytes = close_packet g.merged g.stray; start = 0 }, ok tt)
  closed (g, err e) = (record { inner = g.radio; bytes = g.merged; start = 0 }, err e)

  -- What follows the first packet; an error of the radio leaves `end` as it was.
  abbrev pub after_first : ℕ → BufferedHci → State × Result HciError (List ℕ) → Filled
  after_first rounds h (s, err e) = (record h { inner = s; start = 0 }, err (hci e))
  after_first rounds h (s, ok p) =
      if is_whole p
      then (record { inner = s; bytes = p; start = 0 }, ok tt)
      else closed (
          gather rounds (millis s + 200) (want_of p) (record { radio = s; merged = p; stray = [] }))

  -- `fill`
  unfoldable pub fill : ℕ → BufferedHci → Filled
  unfolding gather is_whole close_packet
  fill rounds h = after_first rounds h (next h.inner buf_len)

  -- The bytes that a caller with `room` bytes gets.
  abbrev pub serve : ℕ → Filled → BufferedHci × Result (HciEnd HciError) (List ℕ)
  serve room (h, err e) = (h, err e)
  serve room (h, ok u) =
      let n = min room (length h.bytes - h.start) in
      (record h { start = h.start + n }, ok (take n (drop h.start h.bytes)))

  -- `read` of `embedded_io::Read`
  unfoldable pub read :
      ℕ → (room : ℕ) → BufferedHci → BufferedHci × Result (HciEnd HciError) (List ℕ)
  unfolding fill
  read rounds room h = serve room (if h.start == length h.bytes then fill rounds h else (h, ok tt))

  -- `write` of `embedded_io::Write`
  unfoldable pub write_hci : List ℕ → BufferedHci → BufferedHci × Result HciError ℕ
  write_hci bytes h = let r = write h.inner bytes in (record h { inner = r.0 }, r.1)
