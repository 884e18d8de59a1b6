-- ===== src/Hci/Merge.antt =====
-- The merging of `fill` in app/ble.rs: the fragments of a message become one packet.
use paper_name_plate.Base.{
  ℕ, suc, ◌+◌, ◌-◌, ◌%◌, ◌≤◌, ◌*◌, ◌/◌, ◌<◌, ◌≡◌, ◌≢◌, ◌∙◌, ap, ap₂, sym, refl, arith,
}
use paper_name_plate.Base.{List, [], ◌∷◌, ◌++◌, append_assoc, All, true, false}
use paper_name_plate.Base.{length, length-append}
use paper_name_plate.Base.Results.{ok}
use paper_name_plate.Hci.{Radio, BufferedHci, is_continuation, is_whole}
use paper_name_plate.Hci.{want_of, fill}
use paper_name_plate.Hci.Arrived.{part, parts, others, Arrives, fill-arrived}

-- What the radio gives while a message is merged, as the HCI and the L2CAP standard have it: a
-- continuing fragment, which is an ACL packet with the flags 01 behind its handle of 12 bits, another
-- ACL packet, a packet that is an event, or nothing yet.
pub data Arrival : Type 0 where
  fragment : (lo high bc : ℕ) → (bytes : List ℕ) → Arrival
  acl : (lo high pb bc : ℕ) → (bytes : List ℕ) → Arrival
  event : (bytes : List ℕ) → Arrival
  gap : Arrival

-- An ACL packet: its handle, its flags, its length, and its bytes.
abbrev pub acl_packet : (lo high pb bc : ℕ) → List ℕ → List ℕ
acl_packet lo high pb bc bytes =
    0x02 ∷ lo ∷ (high + 16 * pb + 64 * bc) ∷ length bytes % 256 ∷ length bytes / 256 % 256 ∷ bytes

-- The bytes of a message of `n` bytes in its first packet: its length, its channel, and its front.
abbrev pub l2cap : (n cid0 cid1 : ℕ) → List ℕ → List ℕ
l2cap n cid0 cid1 front = n % 256 ∷ n / 256 % 256 ∷ cid0 ∷ cid1 ∷ front

abbrev pub packet_of : Arrival → List ℕ
packet_of (fragment lo high bc bytes) = acl_packet lo high 1 bc bytes
packet_of (acl lo high pb bc bytes) = acl_packet lo high pb bc bytes
packet_of (event bytes) = 0x04 ∷ bytes
packet_of gap = []

abbrev pub IsArrival : Arrival → Type 0
IsArrival (fragment lo high bc bytes) = (high < 16) × (bc < 4)
IsArrival (acl lo high pb bc bytes) = (high < 16) × (pb < 4) × (pb ≢ 1) × (bc < 4)
IsArrival (event bytes) = Unit
IsArrival gap = Unit

-- The bytes of the message, and the packets between them, in order.
abbrev pub fragments : List Arrival → List ℕ
fragments [] = []
fragments (fragment lo high bc bytes ∷ xs) = bytes ++ fragments xs
fragments (acl lo high pb bc bytes ∷ xs) = fragments xs
fragments (event bytes ∷ xs) = fragments xs
fragments (gap ∷ xs) = fragments xs

abbrev pub strays : List Arrival → List ℕ
strays [] = []
strays (fragment lo high bc bytes ∷ xs) = strays xs
strays (acl lo high pb bc bytes ∷ xs) = acl_packet lo high pb bc bytes ++ strays xs
strays (event bytes ∷ xs) = (0x04 ∷ bytes) ++ strays xs
strays (gap ∷ xs) = strays xs

abbrev packets : List Arrival → List (List ℕ)
packets [] = []
packets (a ∷ xs) = packet_of a ∷ packets xs

fragment_lem :
    (lo high bc : ℕ) (bytes : List ℕ)
    → high < 16
    → bc < 4
    → is_continuation (acl_packet lo high 1 bc bytes) ≡ true
unfolding is_continuation
fragment_lem lo high bc bytes h k =
    let e : (high + 16 * 1 + 64 * bc) / 16 % 4 ≡ 1 = omega arith in ground (arith, e)

acl_lem :
    (lo high pb bc : ℕ) (bytes : List ℕ)
    → high < 16
    → pb < 4
    → pb ≢ 1
    → bc < 4
    → is_continuation (acl_packet lo high pb bc bytes) ≡ false
unfolding is_continuation
acl_lem lo high pb bc bytes h k n l =
    let e : (high + 16 * pb + 64 * bc) / 16 % 4 ≡ pb = omega arith in ground (arith, e)

first-is_whole :
    (lo high pb bc n cid0 cid1 : ℕ) (front : List ℕ)
    → (high < 16) × (pb < 4) × (pb ≢ 1) × (bc < 4)
    → length front < n
    → n < 2000
    → is_whole (acl_packet lo high pb bc (l2cap n cid0 cid1 front)) ≡ false
unfolding is_whole
first-is_whole lo high pb bc n cid0 cid1 front (h, k, ne, l) short small =
    let e : (high + 16 * pb + 64 * bc) / 16 % 4 ≡ pb = omega arith in
    let want : n % 256 + 256 * (n / 256 % 256) ≡ n = omega arith in
    let m = 4 + length front in
    let has : m % 256 + 256 * (m / 256 % 256) ≡ m = omega arith in ground (arith, e, want, has)

event_lem : (bytes : List ℕ) → is_continuation (0x04 ∷ bytes) ≡ false
unfolding is_continuation
event_lem bytes = ground arith

gap_lem : is_continuation [] ≡ false
unfolding is_continuation
gap_lem = refl

parts-packets : (xs : List Arrival) → All IsArrival xs → parts (packets xs) ≡ fragments xs
parts-packets [] v = refl
parts-packets (fragment lo high bc bytes ∷ xs) v =
    rw (fragment_lem lo high bc bytes v.0.0 v.0.1, parts-packets xs v.1) refl
parts-packets (acl lo high pb bc bytes ∷ xs) v =
    rw (acl_lem lo high pb bc bytes v.0.0 v.0.1 v.0.2 v.0.3, parts-packets xs v.1) refl
parts-packets (event bytes ∷ xs) v = rw (event_lem bytes, parts-packets xs v.1) refl
parts-packets (gap ∷ xs) v = rw (gap_lem, parts-packets xs v.1) refl

others-packets : (xs : List Arrival) → All IsArrival xs → others (packets xs) ≡ strays xs
others-packets [] v = refl
others-packets (fragment lo high bc bytes ∷ xs) v =
    rw (fragment_lem lo high bc bytes v.0.0 v.0.1, others-packets xs v.1) refl
others-packets (acl lo high pb bc bytes ∷ xs) v =
    rw (acl_lem lo high pb bc bytes v.0.0 v.0.1 v.0.2 v.0.3, others-packets xs v.1) refl
others-packets (event bytes ∷ xs) v = rw (event_lem bytes, others-packets xs v.1) refl
others-packets (gap ∷ xs) v = rw (gap_lem, others-packets xs v.1) refl

length-packets : (xs : List Arrival) → length (packets xs) ≡ length xs
length-packets [] = refl
length-packets (a ∷ xs) = ap suc (length-packets xs)

module _ (c : Radio) where
  open c use {State, next, millis}

  -- The radio gives these, one call after the other, with bytes of the message missing at each. It
  -- gives nothing only before the deadline.
  abbrev pub Gives : (deadline : ℕ) → List Arrival → State → State → Type 0
  Gives deadline [] s t = s ≡ t
  Gives deadline (a ∷ xs) s t =
      (s1 : State) × (0 < length (fragments (a ∷ xs)))
      × (next s 512 ≡ (s1, ok (packet_of a)))
      × (packet_of a ≡ [] → millis s1 ≤ deadline)
      × Gives deadline xs s1 t

  Arrives-Gives :
      (deadline : ℕ) (xs : List Arrival) (s t : State) (need : ℕ)
      → All IsArrival xs
      → need ≡ length (fragments xs)
      → Gives deadline xs s t
      → Arrives c deadline (packets xs) s need t
  Arrives-Gives deadline [] s t need v e g = (e, g)
  Arrives-Gives deadline (a ∷ xs) s t need v e g =
      let (s1, more, got, calm, rest) = g in
      let whole = ap length (parts-packets (a ∷ xs) v) in
      let tail = ap length (parts-packets xs v.1) in
      let l = length-append (part (packet_of a)) (parts (packets xs)) in
      (
        s1,
        omega (arith, e, more),
        got,
        calm,
        Arrives-Gives deadline xs s1 t (need - length (part (packet_of a))) v.1
            (omega (arith, e, whole, tail, l)) rest,
      )

  -- A message of `n` bytes behind its length and its channel, which the radio gives in an ACL packet
  -- with the front of it and then in continuing fragments, with other packets between them, is merged:
  -- `fill` leaves the whole message as one ACL packet, with its length in the header, and behind it
  -- the other packets, if they all fit the buffers, the radio's gaps end before the deadline, and there
  -- are rounds enough.
  pub fill-merges :
      (rounds : ℕ) (h : BufferedHci c) (lo high pb bc n cid0 cid1 : ℕ) (front : List ℕ)
      (xs : List Arrival) (s t : State)
      → (high < 16) × (pb < 4) × (pb ≢ 1) × (bc < 4)
      → All IsArrival xs
      → n ≡ length front + length (fragments xs)
      → 0 < length (fragments xs)
      → next h.inner 1024 ≡ (s, ok (acl_packet lo high pb bc (l2cap n cid0 cid1 front)))
      → Gives (millis s + 200) xs s t
      → 9 + n + length (strays xs) ≤ 1024
      → length (strays xs) ≤ 512
      → length xs < rounds
      → fill c rounds h ≡ (
        record {
          inner = t;
          bytes = acl_packet lo high pb bc (l2cap n cid0 cid1 (front ++ fragments xs)) ++ strays xs;
          start = 0;
        },
        ok tt,
      )
  fill-merges rounds h lo high pb bc n cid0 cid1 front xs s t flags v size more e g fits room r =
      let first = acl_packet lo high pb bc (l2cap n cid0 cid1 front) in
      let ps = parts-packets xs v in
      let os = others-packets xs v in
      let lp = ap length ps in
      let lo' = ap length os in
      let want : n % 256 + 256 * (n / 256 % 256) ≡ n = omega arith in
      let all = length-append front (fragments xs) in
      let total : length (l2cap n cid0 cid1 front) + length (fragments xs)
          ≡ length (l2cap n cid0 cid1 (front ++ fragments xs)) =
        omega (arith, all) in
      let open_ =
        first-is_whole lo high pb bc n cid0 cid1 front flags (omega arith) (omega arith) in
      let need : want_of first + 5 - length first ≡ length (fragments xs) = omega (arith, want) in
      fill-arrived c rounds h first (packets xs) s t e open_
        (Arrives-Gives (millis s + 200) xs s t _ v need g) (omega (arith, lp, lo'))
        (omega (arith, lo')) (omega (arith, length-packets xs))
      ∙ ap (λ l. (record { inner = t; bytes = l; start = 0 }, ok tt))
          (rw (ps, os)
            (ap₂
              (λ k q.
                0x02
                ∷ lo
                ∷ (high + 16 * pb + 64 * bc)
                ∷ k % 256
                ∷ k / 256 % 256
                ∷ l2cap n cid0 cid1 q)
              total (sym (append_assoc front (fragments xs) (strays xs)))))
