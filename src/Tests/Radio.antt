-- ===== src/Tests/Radio.antt =====
-- A message in two fragments, with an event between them, on a radio that gives packets from a list.
use paper_name_plate.Base.{ℕ, ◌+◌, ◌≤◌, ◌≡◌, refl, arith, List, [], ◌∷◌, length, take, length-take}
use paper_name_plate.Base.Results.{Result, ok}
use paper_name_plate.Hci.{Radio, BufferedHci, fill}
use paper_name_plate.Hci.Merge.{event, fragment, fill-merges}
use paper_name_plate.Hci.Stream.{reads, reads-pending}

abbrev given : List (List ℕ) → (room : ℕ) → List (List ℕ) × Result (Unit {0}) (List ℕ)
given [] room = ([], ok [])
given (p ∷ ps) room = (ps, ok (take room p))

given_fits : (s : List (List ℕ)) (room : ℕ) (p : List ℕ) → (given s room).1 ≡ ok p → length p ≤ room
given_fits [] room p h = ground arith
given_fits (q ∷ s) room p h = ground (arith, length-take room q)

abbrev queue : Radio
queue = record {
  State = List (List ℕ);
  HciError = Unit {0};
  next = given;
  write = λ s bs. (s, ok (length bs));
  millis = λ s. 0;
  next_fits = given_fits;
}

-- A message of three bytes, of which the first fragment has one.
abbrev first_part : List ℕ
first_part = 0x02 ∷ 0x40 ∷ 0x20 ∷ 5 ∷ 0 ∷ 3 ∷ 0 ∷ 4 ∷ 0 ∷ 0x52 ∷ []

abbrev event_packet : List ℕ
event_packet = 0x04 ∷ 0x13 ∷ 0 ∷ []

abbrev second_part : List ℕ
second_part = 0x02 ∷ 0x40 ∷ 0x10 ∷ 2 ∷ 0 ∷ 0xAA ∷ 0xBB ∷ []

abbrev waiting : BufferedHci queue
waiting = record { inner = first_part ∷ event_packet ∷ second_part ∷ []; bytes = []; start = 0 }

fill-merges_example : fill queue 3 waiting ≡ (
  record {
    inner = [];
    bytes = 0x02 ∷ 0x40 ∷ 0x20 ∷ 7 ∷ 0 ∷ 3 ∷ 0 ∷ 4 ∷ 0 ∷ 0x52 ∷ 0xAA ∷ 0xBB ∷ 0x04 ∷ 0x13 ∷ 0 ∷ [];
    start = 0;
  },
  ok tt,
)
fill-merges_example =
    fill-merges queue 3 waiting 0x40 0 2 0 3 4 0 (0x52 ∷ [])
      (event (0x13 ∷ 0 ∷ []) ∷ fragment 0x40 0 0 (0xAA ∷ 0xBB ∷ []) ∷ [])
      (event_packet ∷ second_part ∷ []) []
      (omega arith, omega arith, (λ e. omega (arith, e)), omega arith)
      (tt, ((omega arith, omega arith), tt)) refl (omega arith) refl
      (
        second_part ∷ [],
        omega arith,
        refl,
        (λ e. omega arith),
        ([], omega arith, refl, (λ e. omega arith), refl),
      )
      (omega arith) (omega arith) (omega arith)

abbrev half_read : BufferedHci queue
half_read = record { inner = []; bytes = event_packet; start = 1 }

reads-pending_example :
    reads queue 3 (1 ∷ 0 ∷ 5 ∷ []) half_read
    ≡ (record half_read { start = 1 + 2 }, ok (take 6 (0x13 ∷ 0 ∷ [])))
reads-pending_example = reads-pending queue 3 (1 ∷ 0 ∷ []) 5 half_read (omega arith)
