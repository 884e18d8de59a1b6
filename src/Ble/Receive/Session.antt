-- ===== src/Ble/Receive/Session.antt =====
-- A session as the receiver sees it: GATT writes and reads, and what the session loop does between
-- them, in any order.
use paper_name_plate.Base.{ℕ, ◌≡◌, arith, List, [], ◌∷◌, Bool, some, All}
use paper_name_plate.Base.Bytes.{IsByte}
use paper_name_plate.Text.Utf8.{from_utf8_lossy}
use paper_name_plate.Plate.Image.{MonoImage}
use paper_name_plate.Plate.Image.Codec.{IsImage}
use paper_name_plate.Plate.Plain.{accepted, validate_plain}
use paper_name_plate.Ble.Receive.{ImgRx, fresh, ctrl, push, status, take_notification}
use paper_name_plate.Ble.Receive.{take_image, take_content, take_clear}
use paper_name_plate.Ble.Receive.Invariant.{IsValid, fresh-IsValid, ctrl-IsValid, push-IsValid}
use paper_name_plate.Ble.Receive.Invariant.{take_notification-IsValid, take_image-IsValid}
use paper_name_plate.Ble.Receive.Invariant.{take_content-IsValid, take_clear-IsValid}

pub data Event : Type 0 where
  write_ctrl : (now : ℕ) → (d : List ℕ) → Event
  write_data : (now : ℕ) → (d : List ℕ) → Event
  read_status : (now room : ℕ) → Event
  subscribe : Bool → Event
  notify : Event
  apply_image : Event
  apply_content : Event
  apply_clear : Event

unfoldable pub step : Event → ImgRx → ImgRx
step (write_ctrl now d) rx = ctrl now d rx
step (write_data now d) rx = push now d rx
step (read_status now room) rx = (status now room rx).0
step (subscribe on) rx = record rx { notify_on = on }
step notify rx = (take_notification rx).0
step apply_image rx = (take_image rx).0
step apply_content rx = (take_content rx).0
step apply_clear rx = (take_clear rx).0

unfoldable pub run : List Event → ImgRx → ImgRx
run [] rx = rx
run (e ∷ es) rx = run es (step e rx)

-- What a client writes is made of bytes.
abbrev pub OfBytes : Event → Type 0
OfBytes (write_ctrl now d) = All IsByte d
OfBytes _ = Unit

step-IsValid : (e : Event) (rx : ImgRx) → OfBytes e → IsValid rx → IsValid (step e rx)
unfolding step
step-IsValid (write_ctrl now d) rx b v = ctrl-IsValid now d rx b v
step-IsValid (write_data now d) rx b v = push-IsValid now d rx v
step-IsValid (read_status now room) rx b v = unfold status in ground arith
step-IsValid (subscribe on) rx b v = ground arith
step-IsValid notify rx b v = take_notification-IsValid rx v
step-IsValid apply_image rx b v = take_image-IsValid rx v
step-IsValid apply_content rx b v = take_content-IsValid rx v
step-IsValid apply_clear rx b v = take_clear-IsValid rx v

-- Whatever bytes a client writes, in whatever order, the receiver keeps its invariant.
pub run-IsValid : (es : List Event) (rx : ImgRx) → All OfBytes es → IsValid rx → IsValid (run es rx)
unfolding run
run-IsValid [] rx b v = v
run-IsValid (e ∷ es) rx b v = run-IsValid es (step e rx) b.1 (step-IsValid e rx b.0 v)

pub IsImage-of_valid :
    (rx : ImgRx) (img : MonoImage) → IsValid rx → (take_image rx).1 ≡ some img → IsImage img
unfolding take_image
IsImage-of_valid rx img v e = ground arith

-- An image that the session hands to the plate, after any events from a new session on, fits the
-- panel and has all its rows.
pub take_image-IsImage :
    (es : List Event) (img : MonoImage)
    → All OfBytes es
    → (take_image (run es fresh)).1 ≡ some img
    → IsImage img
take_image-IsImage es img b e =
    IsImage-of_valid (run es fresh) img (run-IsValid es fresh b fresh-IsValid) e

content_of_valid :
    (rx : ImgRx) (text : List ℕ)
    → IsValid rx
    → (take_content rx).1 ≡ some text
    → validate_plain (from_utf8_lossy text) ≡ accepted
unfolding take_content
content_of_valid rx text v e = ground arith

-- A text that the session hands to the plate, after any events from a new session on, passes
-- `validate_plain`.
pub take_content-accepted :
    (es : List Event) (text : List ℕ)
    → All OfBytes es
    → (take_content (run es fresh)).1 ≡ some text
    → validate_plain (from_utf8_lossy text) ≡ accepted
take_content-accepted es text b e =
    content_of_valid (run es fresh) text (run-IsValid es fresh b fresh-IsValid) e
