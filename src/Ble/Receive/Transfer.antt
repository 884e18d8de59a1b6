-- ===== src/Ble/Receive/Transfer.antt =====
-- Whole transfers: what the receiver holds while packets are lost, repeated and reordered, and what
-- a commit hands over.
use paper_name_plate.Base.{ℕ, ◌<◌, ◌≡◌, ap, ◌∙◌, ◌⊎◌, inl, inr, arith}
use paper_name_plate.Base.{List, [], ◌∷◌, ◌++◌, none, All}
use paper_name_plate.Base.{length, take, drop, append_assoc}
use paper_name_plate.Base.{drop-append_self, take-append-drop}
use paper_name_plate.Plate.Image.{MonoImage}
use paper_name_plate.Ble.Crc.{crc32}
use paper_name_plate.Ble.Receive.{
  ImgRx, push, ctrl, dispatch, status, take_notification, take_image,
}
use paper_name_plate.Ble.Receive.{take_content, take_clear, accept_packet, refuse_packet}
use paper_name_plate.Ble.Receive.{st_receiving, kind_image}
use paper_name_plate.Ble.Receive.Session.{Event, step, run}
use paper_name_plate.Ble.Receive.Session.{write_ctrl, write_data, read_status, subscribe, notify}
use paper_name_plate.Ble.Receive.Session.{apply_image, apply_content, apply_clear}
use paper_name_plate.Ble.Receive.Packets.{packet}

-- The transfer of the image `img` is under way, and the received bytes are a beginning of its rows.
pub record Holds (img : MonoImage) (rx : ImgRx) : Type 0 where
  pub rest : List ℕ
  pub prefix : rx.received ++ rest ≡ img.bits
  pub receiving : rx.state ≡ st_receiving
  pub kind : rx.kind ≡ kind_image
  pub width : rx.width ≡ img.width
  pub height : rx.height ≡ img.height
  pub expected : rx.expected ≡ length img.bits
  pub crc : rx.crc ≡ crc32 img.bits
  pub no_image : rx.done ≡ none
  pub no_content : rx.done_content ≡ none

-- An event of a client that sends parts of `msg`, each under its true offset, in any order and
-- as often as it likes, and that neither starts, commits nor aborts.
abbrev pub Sends : List ℕ → Event → Type 0
Sends msg (write_data now d) =
    (off : ℕ) × (n : ℕ) × (off < 65536) × (d ≡ packet off (take n (drop off msg)))
Sends msg (write_ctrl now d) = d ≡ 0x04 ∷ []
Sends msg _ = Unit

-- The announced transfer, its state and the results are the same.
abbrev pub SameTransfer : ImgRx → ImgRx → Type 0
SameTransfer rx rx' =
    (rx'.state ≡ rx.state)
    × (rx'.kind ≡ rx.kind)
    × (rx'.width ≡ rx.width)
    × (rx'.height ≡ rx.height)
    × (rx'.expected ≡ rx.expected)
    × (rx'.crc ≡ rx.crc)
    × (rx'.done ≡ rx.done)
    × (rx'.done_content ≡ rx.done_content)

-- A packet changes the received bytes only by adding its payload where it belongs.
pub push_frame :
    (now off : ℕ) (payload : List ℕ) (rx : ImgRx)
    → off < 65536
    → (((push now (packet off payload) rx).received ≡ rx.received)
        ⊎ ((off ≡ length rx.received)
            × ((push now (packet off payload) rx).received ≡ rx.received ++ payload)))
      × SameTransfer rx (push now (packet off payload) rx)
unfolding push accept_packet refuse_packet
push_frame now off payload rx w = ground arith

extend_prefix :
    (xs rest msg : List ℕ) (off n : ℕ)
    → xs ++ rest ≡ msg
    → off ≡ length xs
    → (xs ++ take n (drop off msg)) ++ drop n rest ≡ msg
extend_prefix xs rest msg off n e l =
    let d : drop off msg ≡ rest = rw (← e) (drop-append_self xs rest off l) in
    rw (d, append_assoc, take-append-drop n rest) e

pub keep_Holds :
    (img : MonoImage) (rx rx' : ImgRx) (rest : List ℕ)
    → Holds img rx
    → SameTransfer rx rx'
    → rx'.received ++ rest ≡ img.bits
    → Holds img rx'
keep_Holds img rx rx' rest h (s, k, w, t, x, c, d, o) p = record {
  rest = rest;
  prefix = p;
  receiving = s ∙ h.receiving;
  kind = k ∙ h.kind;
  width = w ∙ h.width;
  height = t ∙ h.height;
  expected = x ∙ h.expected;
  crc = c ∙ h.crc;
  no_image = d ∙ h.no_image;
  no_content = o ∙ h.no_content;
}

push-Holds :
    (img : MonoImage) (now off n : ℕ) (rx : ImgRx)
    → off < 65536
    → Holds img rx
    → Holds img (push now (packet off (take n (drop off img.bits))) rx)
push-Holds img now off n rx w h =
    let f = push_frame now off (take n (drop off img.bits)) rx w in
    elim f.0 [
      | inl e ↦ keep_Holds img rx _ h.rest h f.1 (ap (λ r. r ++ h.rest) e ∙ h.prefix)
      | inr (o, e) ↦ keep_Holds img rx _ (drop n h.rest) h f.1 (
          ap (λ r. r ++ drop n h.rest) e
          ∙ extend_prefix rx.received h.rest img.bits off n h.prefix o)
    ]

step-Holds :
    (img : MonoImage) (e : Event) (rx : ImgRx)
    → Sends img.bits e
    → Holds img rx
    → Holds img (step e rx)
unfolding step
step-Holds img (write_data now d) rx (off, n, w, e) h = rw e (push-Holds img now off n rx w h)
step-Holds img (write_ctrl now d) rx e h = rw e (
    keep_Holds img rx _ h.rest h (unfold ctrl dispatch in ground arith)
      (unfold ctrl dispatch in h.prefix))
step-Holds img (read_status now room) rx e h =
    keep_Holds img rx _ h.rest h (unfold status in ground arith) (unfold status in h.prefix)
step-Holds img (subscribe on) rx e h = keep_Holds img rx _ h.rest h (ground arith) h.prefix
step-Holds img notify rx e h =
    keep_Holds img rx _ h.rest h (unfold take_notification in ground arith)
      (unfold take_notification in ground arith)
step-Holds img apply_image rx e h =
    keep_Holds img rx _ h.rest h (unfold take_image in ground arith)
      (unfold take_image in ground arith)
step-Holds img apply_content rx e h =
    keep_Holds img rx _ h.rest h (unfold take_content in ground arith)
      (unfold take_content in ground arith)
step-Holds img apply_clear rx e h =
    keep_Holds img rx _ h.rest h (unfold take_clear in ground arith)
      (unfold take_clear in ground arith)

-- Lost, repeated, reordered and resized packets never spoil a transfer: whatever parts of the rows
-- a client sends, what was received is always a beginning of the rows.
pub run-Holds :
    (img : MonoImage) (es : List Event) (rx : ImgRx)
    → All (Sends img.bits) es
    → Holds img rx
    → Holds img (run es rx)
unfolding run
run-Holds img [] rx s h = h
run-Holds img (e ∷ es) rx s h = run-Holds img es (step e rx) s.1 (step-Holds img e rx s.0 h)
