-- ===== src/Reader/Type4/Session.antt =====
-- A session with a tag that serves a message.
use paper_name_plate.Base.{
  ℕ, zero, suc, ◌+◌, ◌-◌, ◌*◌, ◌/◌, ◌%◌, ◌≤◌, ◌<◌, ◌≡◌, refl, sym, ap, ◌∙◌, arith, List, [], ◌∷◌,
  ◌++◌, append_assoc, append-nil,
}
use paper_name_plate.Base.{
  length, get_or, take, drop, length-append, length-take, take-append_self, drop-append_self,
  take-append-drop, length-drop, lt→ltb, le→ltb,
}
use native.Mathlib.Decide.{dec_lt}
use paper_name_plate.Base.Bytes.{u16_be_bytes}
use paper_name_plate.Base.Results.{ok}
use paper_name_plate.Reader.Type4.{
  Apdus, Read, Step, read_ndef, read_nlen, read_cc, select_ndef, select_cc, select_app,
}
use paper_name_plate.Reader.Type4.{
  check, and_then, checked, command, chunk_len, keep_chunk, read_from, read_message, with_cc,
  read_type4,
}
use paper_name_plate.Reader.Type4.{select_app_apdu, select_file, read_binary, mle_of}

-- A response that ends in the status 9000.
abbrev pub success : List ℕ → List ℕ
success bytes = bytes ++ (0x90 ∷ 0x00 ∷ [])

abbrev pub file_of : List ℕ → List ℕ
file_of msg = u16_be_bytes (length msg) ++ msg

-- The tag holds the message `msg` in its NDEF file: as the standard has it, it selects its
-- application and its files by their names, its capability container names the file, and once the
-- file is selected it gives any bytes of it, at a time at most as many as the container says, in its
-- bytes 3 and 4, the higher first, and 15 is the least that the standard allows there. No more than
-- 246 bytes are asked of it at a time, which is what a frame of 256 bytes takes.
pub record Serves (a : Apdus) (s : a.State) (msg : List ℕ) : Type 1 where
  pub Ready : a.State → Type 0
  pub s1 : a.State
  pub s2 : a.State
  pub s3 : a.State
  pub s4 : a.State
  pub app : List ℕ
  pub container : List ℕ
  pub cc : List ℕ
  pub file : List ℕ
  pub app_selected : a.exchange s select_app_apdu ≡ (s1, ok (success app))
  pub cc_selected : a.exchange s1 (select_file 0xE1 0x03) ≡ (s2, ok (success container))
  pub cc_read : a.exchange s2 (read_binary 0 15) ≡ (s3, ok (success cc))
  pub cc_size : length cc ≡ 15
  pub limit : 15 ≤ get_or cc 3 0 * 256 + get_or cc 4 0
  pub file_control : get_or cc 7 0 ≡ 0x04
  pub file_selected :
      a.exchange s3 (select_file (get_or cc 9 0) (get_or cc 10 0)) ≡ (s4, ok (success file))
  pub ready : Ready s4
  pub bytes_read :
      (t : a.State) (off n : ℕ)
      → Ready t
      → 1 ≤ n
      → n ≤ get_or cc 3 0 * 256 + get_or cc 4 0
      → n ≤ 246
      → off + n ≤ length (file_of msg)
      → (t' : a.State) × (a.exchange t (read_binary off n)
          ≡ (t', ok (success (take n (drop off (file_of msg))))))
        × Ready t'

get_or-append_at :
    (xs ys : List ℕ) (i k : ℕ) → i ≡ length xs + k → get_or (xs ++ ys) i 0 ≡ get_or ys k 0
get_or-append_at [] ys i k e = ap (λ j. get_or ys j 0) (omega arith)
get_or-append_at (x ∷ xs) ys zero k e = absurd (omega arith)
get_or-append_at (x ∷ xs) ys (suc i) k e = get_or-append_at xs ys i k (omega arith)

get_or-append_front :
    (xs ys : List ℕ) (i : ℕ) → i < length xs → get_or (xs ++ ys) i 0 ≡ get_or xs i 0
get_or-append_front [] ys i h = absurd (omega arith)
get_or-append_front (x ∷ xs) ys zero h = refl
get_or-append_front (x ∷ xs) ys (suc i) h = get_or-append_front xs ys i (omega arith)

check-success :
    {E : Type 0} (step : Step) (bytes : List ℕ)
    → check {E = E} step (success bytes) ≡ ok (success bytes)
unfolding check
check-success step bytes =
    let l = length-append {0} bytes (0x90 ∷ 0x00 ∷ []) in
    rw
      (
        get_or-append_at bytes (0x90 ∷ 0x00 ∷ []) (length (success bytes) - 2) 0 (omega (arith, l)),
        get_or-append_at bytes (0x90 ∷ 0x00 ∷ []) (length (success bytes) - 1) 1 (omega (arith, l)),
        le→ltb (length (success bytes)) 2 (omega (arith, l)),
      )
      refl

all_taken :
    (taken rest msg : List ℕ) → taken ++ rest ≡ msg → length msg ≤ length taken → taken ≡ msg
all_taken taken [] msg e h = sym (append-nil taken) ∙ e
all_taken taken (b ∷ rest) msg e h =
    absurd (omega (arith, ap length e, length-append taken (b ∷ rest)))

module _ (a : Apdus) where
  open a use {State, exchange}

  -- A command that succeeds goes on with its response.
  command_then :
      (s s' : State) (step : Step) (apdu bytes : List ℕ) (f : State → List ℕ → Read a)
      → exchange s apdu ≡ (s', ok (success bytes))
      → and_then a (command a s step apdu) f ≡ f s' (success bytes)
  unfolding and_then command
  command_then s s' step apdu bytes f e =
      ap (λ r. and_then a (checked a step r) f) e
      ∙ ap (λ c. and_then a (s', c) f) (check-success step bytes)

  keep_chunk-success :
      (c : ℕ) (taken piece : List ℕ) (again : State → List ℕ → Read a) (t : State)
      → length piece ≡ c
      → keep_chunk a c taken again t (success piece) ≡ again t (taken ++ piece)
  unfolding keep_chunk
  keep_chunk-success c taken piece again t e =
      rw
        (
          le→ltb (length (success piece)) (2 + c)
              (omega (arith, length-append {0} piece (0x90 ∷ 0x00 ∷ []))),
          take-append_self piece (0x90 ∷ 0x00 ∷ []) c (sym e),
        )
        refl

  module _ (s : State) (msg : List ℕ) (v : Serves a s msg) where
    abbrev n : ℕ
    n = length msg

    read_from_round :
        (fuel : ℕ) (t : State) (taken rest : List ℕ)
        → v.Ready t
        → taken ++ rest ≡ msg
        → length taken < n
        → let c = chunk_len a n (mle_of v.cc) taken in
          (t' : State) × v.Ready t'
          × (read_from a (suc fuel) t n (mle_of v.cc) (2 + length taken) taken
              ≡ read_from a fuel t' n (mle_of v.cc) (2 + length taken + c) (taken ++ take c rest))
    unfolding read_from
    read_from_round fuel t taken rest ready e short =
        let c = chunk_len a n (mle_of v.cc) taken in
        let one : 1 ≤ c = omega arith in
        let (t', reply, ready') =
          v.bytes_read t (2 + length taken) c ready one (omega (arith, v.limit)) (omega arith)
            (omega arith) in
        let two : 2 + length taken ≡ suc (suc (length taken)) = omega arith in
        let piece : take c (drop (2 + length taken) (file_of msg)) ≡ take c rest =
          ap (λ k. take c (drop k (file_of msg))) two
          ∙ ap (take c) (
              ap (drop (length taken)) (sym e) ∙ drop-append_self taken rest (length taken) refl) in
        let size : length (take c rest) ≡ c =
          omega (arith, length-take c rest, length-append taken rest, ap length e) in
        let got : exchange t (read_binary (2 + length taken) c) ≡ (t', ok (success (take c rest))) =
          reply ∙ ap (λ p. (t', ok (success p))) piece in
        let again = λ (s1 : State) (m : List ℕ).
          read_from a fuel s1 n (mle_of v.cc) (2 + length taken + c) m in
        (
          t',
          ready',
          rw (lt→ltb (length taken) n short) (
              command_then t t' read_ndef (read_binary (2 + length taken) c) (take c rest)
                (keep_chunk a c taken again) got
              ∙ keep_chunk-success c taken (take c rest) again t' size),
        )

    read_from_all :
        (fuel : ℕ) (t : State) (taken rest : List ℕ) (offset : ℕ)
        → v.Ready t
        → taken ++ rest ≡ msg
        → offset ≡ 2 + length taken
        → length rest ≤ fuel
        → (read_from a fuel t n (mle_of v.cc) offset taken).1 ≡ ok msg
    read_from_all zero t taken rest offset ready e o h =
        let done =
          all_taken taken rest msg e (omega (arith, ap length e, length-append taken rest)) in
        rw done (unfold read_from in ground arith)
    read_from_all (suc fuel) t taken rest offset ready e o h = elim (dec_lt (length taken) n) [
      | no p ↦
          let done = all_taken taken rest msg e (omega arith) in
          rw done (unfold read_from in ground arith)
      | yes p ↦
          let c = chunk_len a n (mle_of v.cc) taken in
          let (t', ready', round) = read_from_round fuel t taken rest ready e p in
          let size = length-append taken rest in
          ap (λ k. (read_from a (suc fuel) t n (mle_of v.cc) k taken).1) o
          ∙ ap (λ r. r.1) round
          ∙ read_from_all fuel t' (taken ++ take c rest) (drop c rest) (2 + length taken + c) ready'
              (append_assoc taken (take c rest) (drop c rest)
                ∙ ap (λ r. taken ++ r) (take-append-drop c rest)
                ∙ e)
              (omega
                (arith, length-append taken (take c rest), length-take c rest, size, ap length e))
              (omega (arith, length-drop c rest, size, ap length e))
    ]

    read_message_all :
        (t : State) → v.Ready t → n < 65534 → (read_message a t (mle_of v.cc)).1 ≡ ok msg
    unfolding read_message
    read_message_all t ready small =
        let (t', reply, ready') =
          v.bytes_read t 0 2 ready (omega arith) (omega (arith, v.limit)) (omega arith)
            (omega arith) in
        let len : n / 256 % 256 * 256 + n % 256 ≡ n = omega arith in
        ap (λ r. r.1) (command_then t t' read_nlen (read_binary 0 2) (u16_be_bytes n) _ reply)
        ∙ ap (λ k. (read_from a k t' k (mle_of v.cc) 2 []).1) len
        ∙ read_from_all n t' [] msg 2 ready' refl refl (omega arith)

    with_cc_all : n < 65534 → (with_cc a v.s3 (success v.cc)).1 ≡ ok msg
    unfolding with_cc
    with_cc_all small =
        let l = length-append {0} v.cc (0x90 ∷ 0x00 ∷ []) in
        let front =
          λ (i : ℕ) (h : i < length v.cc). get_or-append_front v.cc (0x90 ∷ 0x00 ∷ []) i h in
        rw
          (
            le→ltb (length (success v.cc)) (2 + 15) (omega (arith, l, v.cc_size)),
            front 7 (omega (arith, v.cc_size)),
            v.file_control,
            front 9 (omega (arith, v.cc_size)),
            front 10 (omega (arith, v.cc_size)),
            front 3 (omega (arith, v.cc_size)),
            front 4 (omega (arith, v.cc_size)),
          )
          (ap (λ r. r.1) (command_then v.s3 v.s4 select_ndef _ v.file _ v.file_selected)
            ∙ read_message_all v.s4 v.ready small)

-- The message of a Type 4 tag, of any length below 65534, is read whole from a tag that gives
-- at a time as many bytes as its container says, up to 246.
pub read_type4-Serves :
    (a : Apdus) (s : a.State) (msg : List ℕ)
    → Serves a s msg
    → length msg < 65534
    → (read_type4 a s).1 ≡ ok msg
unfolding read_type4
read_type4-Serves a s msg v small =
    ap (λ r. r.1)
      (command_then a s v.s1 select_app _ v.app _ v.app_selected
        ∙ command_then a v.s1 v.s2 select_cc _ v.container _ v.cc_selected
        ∙ command_then a v.s2 v.s3 read_cc _ v.cc _ v.cc_read)
    ∙ with_cc_all a s msg v small
