-- ===== src/Ble/Receive/Complete.antt =====
-- A transfer of an image from its start command to its commit.
use paper_name_plate.Base.{ℕ, ◌+◌, ◌*◌, ◌≤◌, ◌<◌, ◌≡◌, ◌≢◌, sym, ap, ◌∙◌, ◌⊎◌, inl, inr, arith}
use paper_name_plate.Base.{
  List, [], ◌∷◌, ◌++◌, some, none, All, length, length-append, append_assoc, append-nil,
}
use paper_name_plate.Base.Bytes.{IsByte, u16_le_bytes, u32_le_bytes}
use paper_name_plate.Plate.Image.{MonoImage, row_bytes_of}
use paper_name_plate.Plate.Image.Codec.{IsImage, length-bits}
use paper_name_plate.Ble.Crc.{crc32, crc32-lt}
use paper_name_plate.Ble.Receive.{ImgRx, ctrl, dispatch, start_image, push, accept_packet}
use paper_name_plate.Ble.Receive.{commit, commit_transfer, commit_image}
use paper_name_plate.Ble.Receive.{
  st_receiving, st_committed, st_incomplete, kind_image, word16_at, word32_at,
}
use paper_name_plate.Ble.Receive.Session.{Event, run, step, write_data}
use paper_name_plate.Ble.Receive.Packets.{packet}
use paper_name_plate.Ble.Receive.Transfer.{Holds, Sends, run-Holds, push_frame, keep_Holds}

-- CTRL `10 w h len crc32 ack_every` for an image
abbrev pub start_command : MonoImage → ℕ → List ℕ
start_command img ack =
    0x10
    ∷ (u16_le_bytes img.width
        ++ (u16_le_bytes img.height
            ++ (u32_le_bytes (length img.bits) ++ (u32_le_bytes (crc32 img.bits) ++ (ack ∷ [])))))

abbrev pub commit_command : List ℕ
commit_command = 0x02 ∷ []

start_image_lem :
    (now w h len crc : ℕ) (d : List ℕ) (rx : ImgRx)
    → word16_at d 1 ≡ w
    → word16_at d 3 ≡ h
    → word32_at d 5 ≡ len
    → word32_at d 9 ≡ crc
    → 1 ≤ w
    → w ≤ 480
    → 1 ≤ h
    → h ≤ 800
    → len ≡ row_bytes_of w * h
    → len ≤ 48000
    → let rx' = start_image now d rx in
      (rx'.received ≡ [])
      × (rx'.state ≡ st_receiving)
      × (rx'.kind ≡ kind_image)
      × (rx'.width ≡ w)
      × (rx'.height ≡ h)
      × (rx'.expected ≡ len)
      × (rx'.crc ≡ crc)
      × (rx'.done ≡ none)
      × (rx'.done_content ≡ none)
unfolding start_image
start_image_lem now w h len crc d rx ew eh el ec w1 w2 h1 h2 l1 l2 = ground arith

start-Holds :
    (img : MonoImage) (now ack : ℕ) (rx : ImgRx)
    → IsImage img
    → All IsByte img.bits
    → Holds img (ctrl now (start_command img ack) rx)
      × ((ctrl now (start_command img ack) rx).received ≡ [])
unfolding ctrl dispatch
start-Holds img now ack rx v b =
    let size : length img.bits ≤ 48000 = length-bits img v in
    let (r, s, k, w, h, x, c, d, o) =
      start_image_lem now img.width img.height (length img.bits) (crc32 img.bits)
        (start_command img ack) (record rx { last_ms = now }) (omega arith) (omega arith)
        (omega arith) (omega (arith, crc32-lt img.bits b)) v.wide v.width_fits v.high v.height_fits
        v.rows size in
    (
      record {
        rest = img.bits;
        prefix = ap (λ t. t ++ img.bits) r;
        receiving = s;
        kind = k;
        width = w;
        height = h;
        expected = x;
        crc = c;
        no_image = d;
        no_content = o;
      },
      r,
    )

prefix_cases : (xs rest msg : List ℕ) → xs ++ rest ≡ msg → (xs ≡ msg) ⊎ (length xs < length msg)
prefix_cases xs [] msg e = inl (sym (append-nil xs) ∙ e)
prefix_cases xs (r ∷ rest) msg e = inr (rw (← e) (omega (arith, length-append xs (r ∷ rest))))

commit_full :
    (now : ℕ) (rx : ImgRx)
    → rx.state ≡ st_receiving
    → rx.kind ≡ kind_image
    → length rx.received ≡ rx.expected
    → crc32 rx.received ≡ rx.crc
    → ((ctrl now commit_command rx).state ≡ st_committed)
      × ((ctrl now commit_command rx).done
          ≡ some (record { width = rx.width; height = rx.height; bits = rx.received }))
unfolding ctrl dispatch commit commit_transfer commit_image
commit_full now rx s k l c = ground arith

commit_short :
    (now : ℕ) (rx : ImgRx)
    → rx.state ≡ st_receiving
    → length rx.received ≢ rx.expected
    → ((ctrl now commit_command rx).state ≡ st_incomplete)
      × ((ctrl now commit_command rx).done ≡ rx.done)
unfolding ctrl dispatch commit commit_transfer
commit_short now rx s l = ground arith

-- The commit of a transfer under way hands over exactly the image that the client announced, or
-- reports missing data and hands over nothing; it never reports a CRC error.
pub commit-Holds :
    (img : MonoImage) (now : ℕ) (rx : ImgRx)
    → Holds img rx
    → (((ctrl now commit_command rx).state ≡ st_committed)
        × ((ctrl now commit_command rx).done ≡ some img)
        × (rx.received ≡ img.bits))
      ⊎ (((ctrl now commit_command rx).state ≡ st_incomplete)
          × ((ctrl now commit_command rx).done ≡ none)
          × (length rx.received < length img.bits))
commit-Holds img now rx h = elim (prefix_cases rx.received h.rest img.bits h.prefix) [
  | inl e ↦
      let (s, d) =
        commit_full now rx h.receiving h.kind (ap length e ∙ sym h.expected)
          (ap crc32 e ∙ sym h.crc) in
      inl (s, d ∙ (λ i. some (record { width = h.width i; height = h.height i; bits = e i })), e)
  | inr l ↦
      let (s, d) = commit_short now rx h.receiving (λ p. absurd (omega (arith, h.expected))) in
      inr (s, d ∙ h.no_image, l)
]

-- A client starts the transfer of an image, sends any parts of its rows under their true offsets,
-- lost, repeated and reordered as they may be, and commits: the receiver hands over that image, or
-- reports missing data.
pub transfer_safe :
    (img : MonoImage) (now ack later : ℕ) (es : List Event) (rx : ImgRx)
    → IsImage img
    → All IsByte img.bits
    → All (Sends img.bits) es
    → let end = ctrl later commit_command (run es (ctrl now (start_command img ack) rx)) in
      ((end.state ≡ st_committed) × (end.done ≡ some img))
      ⊎ ((end.state ≡ st_incomplete) × (end.done ≡ none))
transfer_safe img now ack later es rx v b s =
    elim (commit-Holds img later _ (run-Holds img es _ s (start-Holds img now ack rx v b).0)) [
      | inl (p, q, _) ↦ inl (p, q)
      | inr (p, q, _) ↦ inr (p, q)
    ]

-- The packets of `chunks`, one after the other from `off` on.
abbrev pub packets : ℕ → ℕ → List (List ℕ) → List Event
packets now off [] = []
packets now off (c ∷ cs) = write_data now (packet off c) ∷ packets now (off + length c) cs

abbrev pub concat : List (List ℕ) → List ℕ
concat [] = []
concat (c ∷ cs) = c ++ concat cs

push_next :
    (now off : ℕ) (payload : List ℕ) (rx : ImgRx)
    → rx.state ≡ st_receiving
    → 1 ≤ length payload
    → off ≡ length rx.received
    → off < 65536
    → off + length payload ≤ rx.expected
    → (push now (packet off payload) rx).received ≡ rx.received ++ payload
unfolding push accept_packet
push_next now off payload rx s l o w f = ground arith

packets_arrive :
    (img : MonoImage) (now off : ℕ) (chunks : List (List ℕ)) (rx : ImgRx)
    → Holds img rx
    → All (λ c. 1 ≤ length c) chunks
    → off ≡ length rx.received
    → rx.received ++ concat chunks ≡ img.bits
    → length img.bits ≤ 48000
    → (Holds img (run (packets now off chunks) rx))
      × ((run (packets now off chunks) rx).received ≡ img.bits)
unfolding run step
packets_arrive img now off [] rx h n o e s = (h, sym (append-nil rx.received) ∙ e)
packets_arrive img now off (c ∷ cs) rx h n o e s =
    packets_arrive img now (off + length c) cs (push now (packet off c) rx)
      (keep_Holds img rx _ (concat cs) h (push_frame now off c rx (omega (arith, size))).1 joined)
      n.1 (omega (arith, ap length taken, length-append rx.received c)) joined s
  where
    size : off + length c + length (concat cs) ≡ length img.bits
    size = omega (
      arith,
      ap length e,
      length-append rx.received (c ++ concat cs),
      length-append c (concat cs),
    )

    taken : (push now (packet off c) rx).received ≡ rx.received ++ c
    taken =
        push_next now off c rx h.receiving n.0 o (omega (arith, size))
          (omega (arith, size, h.expected))

    joined : (push now (packet off c) rx).received ++ concat cs ≡ img.bits
    joined = rw (taken, append_assoc) e

-- An image that is sent in order, in any packets of one byte or more, arrives: the commit hands over
-- that image.
pub transfer_complete :
    (img : MonoImage) (now ack later : ℕ) (chunks : List (List ℕ)) (rx : ImgRx)
    → IsImage img
    → All IsByte img.bits
    → All (λ c. 1 ≤ length c) chunks
    → concat chunks ≡ img.bits
    → let end =
        ctrl later commit_command
          (run (packets now 0 chunks) (ctrl now (start_command img ack) rx)) in
      (end.state ≡ st_committed) × (end.done ≡ some img)
transfer_complete img now ack later chunks rx v b n e =
    let (h, r) = start-Holds img now ack rx v b in
    let size : length img.bits ≤ 48000 = length-bits img v in
    let (k, a) =
      packets_arrive img now 0 chunks _ h n (omega (arith, ap length r))
        (ap (λ t. t ++ concat chunks) r ∙ e) size in
    elim (commit-Holds img later _ k) [
      | inl (p, q, _) ↦ (p, q)
      | inr (_, _, l) ↦ absurd (omega (arith, ap length a, l))
    ]
