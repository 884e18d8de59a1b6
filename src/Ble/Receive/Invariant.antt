-- ===== src/Ble/Receive/Invariant.antt =====
-- The invariant of the receiver, and that every operation keeps it.
use paper_name_plate.Base.{ℕ, ◌+◌, ◌*◌, ◌≤◌, ◌<◌, ◌≡◌, ◌≢◌, ◌⊎◌, inl, arith}
use paper_name_plate.Base.{List, [], ◌∷◌, Option, none, some, All, length, length-append}
use paper_name_plate.Base.{drop}
use paper_name_plate.Base.Bytes.{IsByte, get_or-IsByte}
use paper_name_plate.Text.Utf8.{from_utf8_lossy}
use paper_name_plate.Plate.Image.{MonoImage, row_bytes_of}
use paper_name_plate.Plate.Image.Codec.{IsImage}
use paper_name_plate.Plate.Plain.{accepted, validate_plain}
use paper_name_plate.Ble.Receive.{ImgRx, fresh, st_receiving, kind_image, kind_content}
use paper_name_plate.Ble.Receive.{max_image_bytes, max_content_bytes, start_content}
use paper_name_plate.Ble.Receive.{
  start_image, commit_content, commit_image, commit_transfer, commit,
}
use paper_name_plate.Ble.Receive.{dispatch, ctrl, accept_packet, refuse_packet, push}
use paper_name_plate.Ble.Receive.{take_notification, take_image, take_content, take_clear}

-- A transfer of text, or of an image that fits the panel, is announced.
abbrev pub Announced : ImgRx → Type 0
Announced rx =
    ((rx.kind ≡ kind_content) × (1 ≤ rx.expected) × (rx.expected ≤ max_content_bytes))
    ⊎ ((rx.kind ≡ kind_image)
        × (1 ≤ rx.width)
        × (rx.width ≤ 480)
        × (1 ≤ rx.height)
        × (rx.height ≤ 800)
        × (rx.expected ≡ row_bytes_of rx.width * rx.height)
        × (rx.expected ≤ max_image_bytes))

abbrev pub IsReceiving : ImgRx → Type 0
IsReceiving rx = (rx.since_ack < rx.ack_every) × (rx.ack_every < 256) × Announced rx

abbrev pub DoneImage : Option MonoImage → Type 0
DoneImage none = Unit
DoneImage (some img) = IsImage img

abbrev pub DoneContent : Option (List ℕ) → Type 0
DoneContent none = Unit
DoneContent (some text) = validate_plain (from_utf8_lossy text) ≡ accepted

pub record IsValid (rx : ImgRx) : Type 0 where
  pub fits : length rx.received ≤ rx.expected
  pub transfer : (rx.state ≢ st_receiving) ⊎ IsReceiving rx
  pub image : DoneImage rx.done
  pub content : DoneContent rx.done_content

pub fresh-IsValid : IsValid fresh
fresh-IsValid = record {
  fits = omega arith;
  transfer = inl (omega arith);
  image = tt;
  content = tt;
}

start_content-IsValid :
    (now : ℕ) (d : List ℕ) (rx : ImgRx) → All IsByte d → IsValid (start_content now d rx)
unfolding start_content
start_content-IsValid now d rx b = ground (arith, get_or-IsByte d 9 b)

start_image-IsValid :
    (now : ℕ) (d : List ℕ) (rx : ImgRx) → All IsByte d → IsValid (start_image now d rx)
unfolding start_image
start_image-IsValid now d rx b = ground (arith, get_or-IsByte d 13 b)

commit_content-IsValid : (rx : ImgRx) → IsValid rx → IsValid (commit_content rx)
unfolding commit_content
commit_content-IsValid rx v = ground arith

commit_image-IsValid :
    (rx : ImgRx)
    → IsValid rx
    → length rx.received ≡ rx.expected
    → rx.state ≡ st_receiving
    → rx.kind ≢ kind_content
    → IsValid (commit_image rx)
unfolding commit_image
commit_image-IsValid rx v full s k = ground arith

commit-IsValid : (rx : ImgRx) → IsValid rx → IsValid (commit rx)
unfolding commit commit_transfer
commit-IsValid rx v = ground (arith, commit_content-IsValid rx v, commit_image-IsValid rx v)

dispatch-IsValid :
    (now op : ℕ) (d : List ℕ) (rx : ImgRx)
    → All IsByte d
    → IsValid rx
    → IsValid (dispatch now op d rx)
unfolding dispatch
dispatch-IsValid now op d rx b v =
    ground
      (arith, start_content-IsValid now d rx b, start_image-IsValid now d rx b, commit-IsValid rx v)

-- A CTRL write of bytes, of any length and content, keeps the invariant.
pub ctrl-IsValid :
    (now : ℕ) (d : List ℕ) (rx : ImgRx) → All IsByte d → IsValid rx → IsValid (ctrl now d rx)
unfolding ctrl
ctrl-IsValid now [] rx b v = ground arith
ctrl-IsValid now (op ∷ d) rx b v =
    dispatch-IsValid now op (op ∷ d) (record rx { last_ms = now }) b (ground arith)

accept_packet-IsValid :
    (payload : List ℕ) (rx : ImgRx)
    → IsValid rx
    → length rx.received + length payload ≤ rx.expected
    → IsValid (accept_packet payload rx)
unfolding accept_packet
accept_packet-IsValid payload rx v h = ground (arith, length-append rx.received payload)

refuse_packet-IsValid : (rx : ImgRx) → IsValid rx → IsValid (refuse_packet rx)
unfolding refuse_packet
refuse_packet-IsValid rx v = ground arith

-- A DATA write, of any length and content, keeps the invariant.
pub push-IsValid : (now : ℕ) (d : List ℕ) (rx : ImgRx) → IsValid rx → IsValid (push now d rx)
unfolding push
push-IsValid now d rx v = ground (
  arith,
  accept_packet-IsValid (drop 2 d) (record rx { last_ms = now }),
  refuse_packet-IsValid (record rx { last_ms = now }),
)

pub take_notification-IsValid : (rx : ImgRx) → IsValid rx → IsValid (take_notification rx).0
unfolding take_notification
take_notification-IsValid rx v = ground arith

pub take_image-IsValid : (rx : ImgRx) → IsValid rx → IsValid (take_image rx).0
unfolding take_image
take_image-IsValid rx v = ground arith

pub take_content-IsValid : (rx : ImgRx) → IsValid rx → IsValid (take_content rx).0
unfolding take_content
take_content-IsValid rx v = ground arith

pub take_clear-IsValid : (rx : ImgRx) → IsValid rx → IsValid (take_clear rx).0
unfolding take_clear
take_clear-IsValid rx v = ground arith
