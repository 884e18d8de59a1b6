-- ===== src/Ble/Receive.antt =====
-- `ImgRx` of app/ble.rs: the receiving end of a transfer. A method takes the state and returns the
-- new one; `now` is what `millis()` returns.
pub mod Invariant
pub mod Packets
pub mod Session
pub mod Transfer
pub mod Complete
use paper_name_plate.Base.{
  ℕ, ◌+◌, ◌*◌, ◌%◌, List, [], ◌∷◌, ◌++◌, Bool, true, false, not, ◌&&◌, ◌||◌,
}
use paper_name_plate.Base.{Option, none, some, ltb, leb, ◌==◌, if◌then◌else◌}
use paper_name_plate.Base.{length, get_or, drop}
use paper_name_plate.Base.Bytes.{u16_le, u32_le, u32_le_bytes}
use paper_name_plate.Text.Utf8.{from_utf8_lossy}
use paper_name_plate.Plate.Image.{MonoImage, row_bytes_of}
use paper_name_plate.Plate.Plain.{Verdict, accepted, text_too_long, url_too_long, validate_plain}
use paper_name_plate.Ble.Crc.{crc32}

abbrev pub st_idle : ℕ
st_idle = 0

abbrev pub st_receiving : ℕ
st_receiving = 1

abbrev pub st_committed : ℕ
st_committed = 2

abbrev pub st_crc_error : ℕ
st_crc_error = 3

abbrev pub st_incomplete : ℕ
st_incomplete = 4

abbrev pub st_rejected : ℕ
st_rejected = 5

abbrev pub kind_image : ℕ
kind_image = 1

abbrev pub kind_content : ℕ
kind_content = 2

abbrev pub max_image_bytes : ℕ
max_image_bytes = 48000

abbrev pub max_content_bytes : ℕ
max_content_bytes = 1024

abbrev pub default_ack_every : ℕ
default_ack_every = 8

pub record ImgRx : Type 0 where
  pub state : ℕ
  pub kind : ℕ
  pub width : ℕ
  pub height : ℕ
  pub expected : ℕ
  pub crc : ℕ
  pub ack_every : ℕ
  pub received : List ℕ
  pub done : Option MonoImage
  pub done_content : Option (List ℕ)
  pub last_ms : ℕ
  pub notify_on : Bool
  pub pending_ntf : Bool
  pub since_ack : ℕ
  pub nak_sent : Bool
  pub clear_image_req : Bool
  pub doze_test_req : Bool

-- `ImgRx::default()`
abbrev pub fresh : ImgRx
fresh = record {
  state = st_idle;
  kind = 0;
  width = 0;
  height = 0;
  expected = 0;
  crc = 0;
  ack_every = 0;
  received = [];
  done = none;
  done_content = none;
  last_ms = 0;
  notify_on = false;
  pending_ntf = false;
  since_ack = 0;
  nak_sent = false;
  clear_image_req = false;
  doze_test_req = false;
}

-- `reset`: everything to its default but the subscription.
unfoldable pub reset : ℕ → ImgRx → ImgRx
reset now rx = record fresh { notify_on = rx.notify_on; last_ms = now }

-- Byte `i` of a command; the reads stand behind the test of the length.
abbrev pub byte_at : List ℕ → ℕ → ℕ
byte_at d i = get_or d i 0

abbrev pub word16_at : List ℕ → ℕ → ℕ
word16_at d i = u16_le (byte_at d i) (byte_at d (i + 1))

abbrev pub word32_at : List ℕ → ℕ → ℕ
word32_at d i = u32_le (byte_at d i) (byte_at d (i + 1)) (byte_at d (i + 2)) (byte_at d (i + 3))

abbrev pub ack_or_default : ℕ → ℕ
ack_or_default a = if a == 0 then default_ack_every else a

-- CTRL `11 len crc ack_every`, of 10 bytes at least: start a transfer of text.
unfoldable pub start_content : ℕ → List ℕ → ImgRx → ImgRx
unfolding reset
start_content now d rx =
    let len = word32_at d 1 in
    if len == 0 || ltb max_content_bytes len
    then record (reset now rx) { pending_ntf = true }
    else record (reset now rx) {
      state = st_receiving;
      kind = kind_content;
      expected = len;
      crc = word32_at d 5;
      ack_every = ack_or_default (byte_at d 9);
      received = [];
      pending_ntf = true;
    }

abbrev pub bad_image_start : ℕ → ℕ → ℕ → Bool
bad_image_start w h len =
    w == 0
    || (h == 0
        || (ltb 480 w
            || (ltb 800 h || (not (len == row_bytes_of w * h) || ltb max_image_bytes len))))

-- CTRL `10 w h len crc ack_every`, of 14 bytes at least: start a transfer of an image.
unfoldable pub start_image : ℕ → List ℕ → ImgRx → ImgRx
unfolding reset
start_image now d rx =
    let w = word16_at d 1 in
    let h = word16_at d 3 in
    let len = word32_at d 5 in
    if bad_image_start w h len
    then record (reset now rx) { pending_ntf = true }
    else record (reset now rx) {
      state = st_receiving;
      kind = kind_image;
      width = w;
      height = h;
      expected = len;
      crc = word32_at d 9;
      ack_every = ack_or_default (byte_at d 13);
      received = [];
      pending_ntf = true;
    }

-- A text is committed if `validate_plain` accepts it.
unfoldable pub commit_content : ImgRx → ImgRx
commit_content rx = elim (validate_plain (from_utf8_lossy rx.received)) [
  | accepted ↦ record rx { state = st_committed; done_content = some rx.received; received = [] }
  | text_too_long ↦ record rx { state = st_rejected; received = [] }
  | url_too_long ↦ record rx { state = st_rejected; received = [] }
]

unfoldable pub commit_image : ImgRx → ImgRx
commit_image rx = record rx {
  state = st_committed;
  done = some (record { width = rx.width; height = rx.height; bits = rx.received });
  received = [];
}

-- CTRL `02`, while receiving
unfoldable pub commit_transfer : ImgRx → ImgRx
commit_transfer rx =
    if not (length rx.received == rx.expected)
    then record rx { state = st_incomplete; received = [] }
    else if not (crc32 rx.received == rx.crc)
    then record rx { state = st_crc_error; received = [] }
    else if rx.kind == kind_content
    then commit_content rx
    else commit_image rx

unfoldable pub commit : ImgRx → ImgRx
commit rx = record (if rx.state == st_receiving then commit_transfer rx else rx) {
  pending_ntf = true;
}

-- The command byte chooses; a start that is too short is an unknown command.
unfoldable pub dispatch : ℕ → ℕ → List ℕ → ImgRx → ImgRx
unfolding reset
dispatch now op d rx =
    if op == 0x11 && leb 10 (length d)
    then start_content now d rx
    else if op == 0x10 && leb 14 (length d)
    then start_image now d rx
    else if op == 0x02
    then commit rx
    else if op == 0x03
    then record (reset now rx) { pending_ntf = true }
    else if op == 0x04
    then record rx { pending_ntf = true }
    else if op == 0x05
    then record rx { doze_test_req = true }
    else if op == 0x06
    then record rx { clear_image_req = true; pending_ntf = true }
    else rx

-- A write of the CTRL characteristic.
unfoldable pub ctrl : ℕ → List ℕ → ImgRx → ImgRx
ctrl now [] rx = record rx { last_ms = now }
ctrl now (op ∷ d) rx = dispatch now op (op ∷ d) (record rx { last_ms = now })

-- A packet in order, that fits: `since_ack += 1` on a byte.
unfoldable pub accept_packet : List ℕ → ImgRx → ImgRx
accept_packet payload rx =
    let all = rx.received ++ payload in
    let since = (rx.since_ack + 1) % 256 in
    if leb rx.ack_every since || length all == rx.expected
    then record rx { received = all; nak_sent = false; since_ack = 0; pending_ntf = true }
    else record rx { received = all; nak_sent = false; since_ack = since }

-- Any other packet is dropped, and answered once in a row.
unfoldable pub refuse_packet : ImgRx → ImgRx
refuse_packet rx =
    if rx.nak_sent then rx else record rx { nak_sent = true; since_ack = 0; pending_ntf = true }

-- The packet carries the bytes from `off` on: is that where the receiver is?
abbrev pub in_order : ImgRx → ℕ → List ℕ → Bool
in_order rx off payload =
    off == length rx.received && leb (length rx.received + length payload) rx.expected

-- A write of the DATA characteristic: `off:u16 | payload`.
unfoldable pub push : ℕ → List ℕ → ImgRx → ImgRx
push now d rx =
    let seen = record rx { last_ms = now } in
    if not (rx.state == st_receiving) || ltb (length d) 3
    then seen
    else if in_order rx (word16_at d 0) (drop 2 d)
    then accept_packet (drop 2 d) seen
    else refuse_packet seen

-- `state:u8 received:u32 expected:u32`
unfoldable pub status_bytes : ImgRx → List ℕ
status_bytes rx = rx.state ∷ (u32_le_bytes (length rx.received) ++ u32_le_bytes rx.expected)

-- A read of the STATUS characteristic into `room` bytes: what it writes at the front of them.
unfoldable pub status : ℕ → ℕ → ImgRx → ImgRx × List ℕ
status now room rx = (record rx { last_ms = now }, if ltb room 9 then [] else status_bytes rx)

-- The pending notification, if there is one and the client subscribed.
unfoldable pub take_notification : ImgRx → ImgRx × Option (List ℕ)
take_notification rx =
    if not rx.pending_ntf
    then (rx, none)
    else (record rx { pending_ntf = false }, if rx.notify_on then some (status_bytes rx) else none)

-- What the session loop takes out between notifications: an image, a text, and the request to
-- clear the image. The state goes back to idle once the image or the text was applied.
unfoldable pub take_image : ImgRx → ImgRx × Option MonoImage
take_image rx = if rx.pending_ntf then (rx, none) else elim rx.done [
  | none ↦ (rx, none)
  | some img ↦ (record rx { done = none; state = st_idle }, some img)
]

unfoldable pub take_content : ImgRx → ImgRx × Option (List ℕ)
take_content rx = if rx.pending_ntf then (rx, none) else elim rx.done_content [
  | none ↦ (rx, none)
  | some text ↦ (record rx { done_content = none; state = st_idle }, some text)
]

unfoldable pub take_clear : ImgRx → ImgRx × Bool
take_clear rx =
    if rx.clear_image_req && not rx.pending_ntf
    then (record rx { clear_image_req = false }, true)
    else (rx, false)
