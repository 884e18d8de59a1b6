-- ===== src/Ble/Receive/Packets.antt =====
-- One DATA packet: taken if it is the next one, otherwise dropped and answered.
use paper_name_plate.Base.{ℕ, ◌+◌, ◌≤◌, ◌<◌, ◌≡◌, ◌≢◌, refl, ◌⊎◌, arith}
use paper_name_plate.Base.{List, ◌++◌, true, false, length, if◌then◌else◌, length-append}
use paper_name_plate.Base.Bytes.{u16_le_bytes}
use paper_name_plate.Ble.Receive.{ImgRx, push, accept_packet, refuse_packet, word32_at}
use paper_name_plate.Ble.Receive.{take_notification, status_bytes}
use paper_name_plate.Base.{◌^◌, some, get_or, false}
use paper_name_plate.Ble.Receive.{st_receiving}
use paper_name_plate.Ble.Receive.Invariant.{IsValid}

-- The packet that a client sends for the bytes from `off` on.
abbrev pub packet : ℕ → List ℕ → List ℕ
packet off payload = u16_le_bytes off ++ payload

-- While receiving, a packet of one byte or more that starts where the receiver is and ends inside the
-- transfer is taken: its payload joins the received bytes, and a notification is due once `ack_every`
-- packets were taken since the last one or the transfer is complete.
pub push_taken :
    (now off : ℕ) (payload : List ℕ) (rx : ImgRx)
    → IsValid rx
    → rx.state ≡ st_receiving
    → 1 ≤ length payload
    → off ≡ length rx.received
    → off < 65536
    → off + length payload ≤ rx.expected
    → ((push now (packet off payload) rx).received ≡ rx.received ++ payload)
      × ((push now (packet off payload) rx).nak_sent ≡ false)
      × (((rx.since_ack + 1 < rx.ack_every)
            × (off + length payload ≢ rx.expected)
            × ((push now (packet off payload) rx).since_ack ≡ rx.since_ack + 1)
            × ((push now (packet off payload) rx).pending_ntf ≡ rx.pending_ntf))
          ⊎ (((rx.since_ack + 1 ≡ rx.ack_every) ⊎ (off + length payload ≡ rx.expected))
              × ((push now (packet off payload) rx).since_ack ≡ 0)
              × ((push now (packet off payload) rx).pending_ntf ≡ true)))
unfolding push accept_packet
push_taken now off payload rx v s l o w f = ground (arith, length-append rx.received payload)

-- While receiving, a packet of one byte or more that starts elsewhere or ends behind the transfer
-- changes neither the received bytes nor the state. The first one in a row makes a notification due;
-- the next ones are silent.
pub push_dropped :
    (now off : ℕ) (payload : List ℕ) (rx : ImgRx)
    → rx.state ≡ st_receiving
    → 1 ≤ length payload
    → off < 65536
    → (off ≢ length rx.received) ⊎ (rx.expected < off + length payload)
    → ((push now (packet off payload) rx).received ≡ rx.received)
      × ((push now (packet off payload) rx).state ≡ rx.state)
      × ((push now (packet off payload) rx).nak_sent ≡ true)
      × ((push now (packet off payload) rx).pending_ntf
          ≡ (if rx.nak_sent then rx.pending_ntf else true))
unfolding push refuse_packet
push_dropped now off payload rx s l w h = ground arith

-- A pending notification goes out once, if the client subscribed: 9 bytes, which give the state,
-- how many bytes were received, and how many are expected, as far as these fit 32 bits.
pub take_notification_lem :
    (rx : ImgRx)
    → rx.pending_ntf ≡ true
    → rx.notify_on ≡ true
    → length rx.received < 2 ^ 32
    → rx.expected < 2 ^ 32
    → (s : List ℕ) × (take_notification rx ≡ (record rx { pending_ntf = false }, some s))
      × (length s ≡ 9)
      × (get_or s 0 0 ≡ rx.state)
      × (word32_at s 1 ≡ length rx.received)
      × (word32_at s 5 ≡ rx.expected)
unfolding take_notification status_bytes
take_notification_lem rx p n h k =
    (status_bytes rx, ground arith, omega arith, refl, omega arith, omega arith)
