-- ===== src/Tests/Receiver.antt =====
-- Transfers over Bluetooth.
use paper_name_plate.Base.{ℕ, ◌+◌, ◌<◌, ◌≡◌, ◌≢◌, ◌⊎◌, inl, inr, refl, arith, List, [], ◌∷◌, ◌++◌}
use paper_name_plate.Base.{true, false, none, some, All, length, take, drop, if◌then◌else◌}
use paper_name_plate.Plate.Plain.{accepted, validate_plain}
use paper_name_plate.Text.Utf8.{from_utf8_lossy}
use paper_name_plate.Ble.Crc.{crc32}
use paper_name_plate.Ble.Receive.{
  ImgRx, fresh, ctrl, push, take_image, take_content, take_notification,
}
use paper_name_plate.Ble.Receive.{
  dispatch, commit, start_image, start_content, accept_packet, commit_transfer, commit_image,
  commit_content,
}
use paper_name_plate.Text.Utf8.{as_bytes, encode_char}
use paper_name_plate.Text.Split.{split}
use paper_name_plate.Text.Trim.{trim, is_whitespace, trim_start_matches}
use paper_name_plate.Plate.Plain.{clean_line, strip_scheme, apply_plain, parse_plain}
use paper_name_plate.Ble.Receive.{st_receiving, st_committed, st_incomplete, kind_content}
use paper_name_plate.Ble.Receive.Invariant.{IsValid, fresh-IsValid}
use paper_name_plate.Ble.Receive.Packets.{packet, push_taken, push_dropped}
use paper_name_plate.Ble.Receive.Session.{Event, write_ctrl, write_data, notify, step, run}
use paper_name_plate.Ble.Receive.Session.{OfBytes, run-IsValid, take_content-accepted}
use paper_name_plate.Ble.Receive.Transfer.{Sends}
use paper_name_plate.Ble.Receive.Complete.{
  start_command, commit_command, packets, transfer_complete, transfer_safe,
}
use paper_name_plate.Tests.Data.{checks, checks-IsImage, checks-IsByte}

abbrev chunks : List (List ℕ)
chunks = (0xAA ∷ 0xA0 ∷ []) ∷ (0x55 ∷ []) ∷ (0x50 ∷ []) ∷ []

abbrev whole_run : ImgRx
whole_run = ctrl 9 commit_command (run (packets 5 0 chunks) (ctrl 5 (start_command checks 0) fresh))

transfer_complete_example : (whole_run.state ≡ st_committed) × (whole_run.done ≡ some checks)
transfer_complete_example =
    transfer_complete checks 5 0 9 chunks fresh checks-IsImage checks-IsByte
      (omega arith, (omega arith, (omega arith, tt))) refl

-- The third byte first, then the first two, twice, and a notification in between.
abbrev shuffled : List Event
shuffled =
    write_data 5 (packet 2 (take 1 (drop 2 checks.bits)))
    ∷ write_data 6 (packet 0 (take 2 (drop 0 checks.bits)))
    ∷ notify
    ∷ write_data 7 (packet 0 (take 2 (drop 0 checks.bits)))
    ∷ []

shuffled-Sends : All (Sends checks.bits) shuffled
shuffled-Sends =
    ((2, 1, omega arith, refl), ((0, 2, omega arith, refl), (tt, ((0, 2, omega arith, refl), tt))))

abbrev shuffled_run : ImgRx
shuffled_run = ctrl 9 commit_command (run shuffled (ctrl 5 (start_command checks 3) fresh))

transfer_safe_example :
    ((shuffled_run.state ≡ st_committed) × (shuffled_run.done ≡ some checks))
    ⊎ ((shuffled_run.state ≡ st_incomplete) × (shuffled_run.done ≡ none))
transfer_safe_example =
    transfer_safe checks 5 3 9 shuffled fresh checks-IsImage checks-IsByte shuffled-Sends

-- An image: start, two packets, commit, and the notification goes out.
abbrev pub image_session : List Event
image_session =
    write_ctrl 1 (start_command checks 2)
    ∷ write_data 2 (packet 0 (take 2 checks.bits))
    ∷ write_data 3 (packet 2 (drop 2 checks.bits))
    ∷ write_ctrl 4 commit_command
    ∷ notify
    ∷ []

pub image_session-OfBytes : All OfBytes image_session
image_session-OfBytes = ground arith

run-IsValid_example : IsValid (run image_session fresh)
run-IsValid_example = run-IsValid image_session fresh image_session-OfBytes fresh-IsValid

image_session-done : (take_image (run image_session fresh)).1 ≡ some checks
unfolding take_image run step take_notification ctrl dispatch commit push start_image accept_packet
    commit_transfer crc32 commit_image
image_session-done = refl

-- The text "A"; its CRC-32 is 0xD3D99E8B.
abbrev text_session : List Event
text_session =
    write_ctrl 1 (0x11 ∷ 1 ∷ 0 ∷ 0 ∷ 0 ∷ 0x8B ∷ 0x9E ∷ 0xD9 ∷ 0xD3 ∷ 8 ∷ [])
    ∷ write_data 2 (packet 0 (b'A' ∷ []))
    ∷ write_ctrl 3 commit_command
    ∷ notify
    ∷ []

text_session-OfBytes : All OfBytes text_session
text_session-OfBytes = ground arith

text_session-done : (take_content (run text_session fresh)).1 ≡ some (b'A' ∷ [])
unfolding take_content run step take_notification ctrl dispatch commit push start_content
    accept_packet commit_transfer crc32 commit_content validate_plain as_bytes split from_utf8_lossy
    clean_line trim is_whitespace strip_scheme trim_start_matches apply_plain parse_plain
    encode_char
text_session-done = refl

take_content-accepted_example : validate_plain (from_utf8_lossy (b'A' ∷ [])) ≡ accepted
take_content-accepted_example =
    take_content-accepted text_session (b'A' ∷ []) text_session-OfBytes text_session-done

-- A transfer of 4 bytes of text of which 2 are there.
abbrev half : ImgRx
half = record fresh {
  state = st_receiving;
  kind = kind_content;
  expected = 4;
  ack_every = 8;
  since_ack = 1;
  received = 1 ∷ 2 ∷ [];
  notify_on = true;
  pending_ntf = true;
}

half-IsValid : IsValid half
half-IsValid = record {
  fits = omega arith;
  transfer = inr (omega arith, omega arith, inl (refl, omega arith, omega arith));
  image = tt;
  content = tt;
}

push_taken_example :
    ((push 7 (packet 2 (3 ∷ [])) half).received ≡ half.received ++ (3 ∷ []))
    × ((push 7 (packet 2 (3 ∷ [])) half).nak_sent ≡ false)
    × (((half.since_ack + 1 < half.ack_every)
          × (2 + length {A = ℕ} (3 ∷ []) ≢ half.expected)
          × ((push 7 (packet 2 (3 ∷ [])) half).since_ack ≡ half.since_ack + 1)
          × ((push 7 (packet 2 (3 ∷ [])) half).pending_ntf ≡ half.pending_ntf))
        ⊎ (((half.since_ack + 1 ≡ half.ack_every) ⊎ (2 + length {A = ℕ} (3 ∷ []) ≡ half.expected))
            × ((push 7 (packet 2 (3 ∷ [])) half).since_ack ≡ 0)
            × ((push 7 (packet 2 (3 ∷ [])) half).pending_ntf ≡ true)))
push_taken_example =
    push_taken 7 2 (3 ∷ []) half half-IsValid refl (omega arith) refl (omega arith) (omega arith)

push_dropped_example :
    ((push 7 (packet 3 (3 ∷ [])) half).received ≡ half.received)
    × ((push 7 (packet 3 (3 ∷ [])) half).state ≡ half.state)
    × ((push 7 (packet 3 (3 ∷ [])) half).nak_sent ≡ true)
    × ((push 7 (packet 3 (3 ∷ [])) half).pending_ntf
        ≡ (if half.nak_sent then half.pending_ntf else true))
push_dropped_example =
    push_dropped 7 3 (3 ∷ []) half refl (omega arith) (omega arith)
      (inl (λ e. absurd (omega arith)))
