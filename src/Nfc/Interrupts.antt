-- ===== src/Nfc/Interrupts.antt =====
-- What the interrupt calls of st25r3916.rs do with the flags, bit by bit, and the timer's bounds.
use paper_name_plate.Base.{ℕ, zero, suc, ◌-◌, ◌*◌, ◌^◌, min, max, ◌≤◌, ◌<◌, ◌≡◌, ◌≢◌, ◌⊎◌, inl, inr}
use paper_name_plate.Base.{
  refl, sym, ap, ap₂, ◌∙◌, arith, bit_and, bit_or, Bool, true, false, ◌==◌, if◌then◌else◌,
}
use paper_name_plate.Base.{Bool-cases, ==_iff}
use paper_name_plate.Base.Digits.{
  bit_at, bit_at-le_one, bit_at-zero, bit_at-and, bit_at-or, bit_at-not, bit_and-le_right,
}
use paper_name_plate.Base.Results.{Result, ok, err}
use paper_name_plate.Base.Io.{continue, update, ◌>>=◌, Keeps, keeps_rules}
use native.Mathlib.Decide.{dec_le}
use paper_name_plate.Bus.{Bus}
use paper_name_plate.Nfc.Irq
use paper_name_plate.Nfc.Driver.{Chip, read_regs, read_reg, read_irq, fold_irq, consume, take_irq}
use paper_name_plate.Nfc.Driver.{not_u32, hit_or, wait_rounds, wait_irq}
use paper_name_plate.Nfc.Transceive.{ticks_of}

-- What is left of a word of flags behind the consumption of those in `bits`.
bit_at-consumed :
    (p bits i : ℕ)
    → bits < 2 ^ 32
    → i < 32
    → bit_at i (bit_and p (not_u32 (bit_and p bits))) ≡ min (bit_at i p) (1 - bit_at i bits)
bit_at-consumed p bits i h l =
    let hit = bit_and p bits in
    let small : hit < 2 ^ 32 = omega (arith, bit_and-le_right p bits) in
    let low : bit_at i (not_u32 hit) ≡ 1 - bit_at i hit = bit_at-not 32 i hit small l in
    omega (
      arith,
      bit_at-and i p (not_u32 hit),
      low,
      bit_at-and i p bits,
      bit_at-le_one i p,
      bit_at-le_one i bits,
    )

module _ (b : Bus) where
  read_regs-Keeps : (p r n : ℕ) → Keeps (λ (c : Chip b). c.pending_irq ≡ p) (read_regs b r n)
  unfolding read_regs
  read_regs-Keeps p r n = record { keep = λ c h. h }

  read_irq-Keeps : (p : ℕ) → Keeps (λ (c : Chip b). c.pending_irq ≡ p) (read_irq b)
  unfolding read_irq read_reg
  read_irq-Keeps p = search (keeps_rules, read_regs-Keeps) depth 20

  -- What `take_irq` makes of the flags that were pending and those that the chip gave.
  taken :
      (r : Chip b × Result b.BusError ℕ) (p fresh bits i : ℕ)
      → r.0.pending_irq ≡ p
      → r.1 ≡ ok fresh
      → bits < 2 ^ 32
      → i < 32
      → let t =
          continue
            (continue r (λ f. update (λ c. record c { pending_irq = bit_or c.pending_irq f })))
            (λ u. consume b bits) in
        (hit : ℕ) × (t.1 ≡ ok hit)
        × (bit_at i hit ≡ min (max (bit_at i p) (bit_at i fresh)) (bit_at i bits))
        × (bit_at i t.0.pending_irq ≡ min (max (bit_at i p) (bit_at i fresh)) (1 - bit_at i bits))
  unfolding update
  taken (c, ok f) p fresh bits i k e h l =
      let q : f ≡ fresh = ground arith in
      let w = bit_or c.pending_irq f in
      let d : bit_at i w ≡ max (bit_at i p) (bit_at i fresh) =
        bit_at-or i c.pending_irq f ∙ ap₂ (λ x y. max (bit_at i x) (bit_at i y)) k q in
      (
        bit_and w bits,
        refl,
        bit_at-and i w bits ∙ ap (λ x. min x (bit_at i bits)) d,
        bit_at-consumed w bits i h l ∙ ap (λ x. min x (1 - bit_at i bits)) d,
      )
  taken (c, err x) p fresh bits i k e h l = absurd (ground arith)

  -- `take_irq` loses no flag: of the flags that were pending and those that the chip gives, it returns
  -- the ones in `bits`, and keeps the others pending.
  pub take_irq-lossless :
      (c : Chip b) (bits fresh i : ℕ)
      → bits < 2 ^ 32
      → i < 32
      → (read_irq b c).1 ≡ ok fresh
      → (hit : ℕ) × ((take_irq b bits c).1 ≡ ok hit)
        × (bit_at i hit ≡ min (max (bit_at i c.pending_irq) (bit_at i fresh)) (bit_at i bits))
        × (bit_at i (take_irq b bits c).0.pending_irq
            ≡ min (max (bit_at i c.pending_irq) (bit_at i fresh)) (1 - bit_at i bits))
  unfolding take_irq fold_irq ◌>>=◌
  take_irq-lossless c bits fresh i h l e =
      taken (read_irq b c) c.pending_irq fresh bits i ((read_irq-Keeps c.pending_irq).keep c refl) e
        h l

  -- The end of a wait: the flag `i` is not pending if it is one of `bits`, and one of `bits` was seen,
  -- or the timeout is flagged.
  abbrev Answered : ℕ → ℕ → Chip b → ℕ → Type 0
  Answered bits i d flags =
      (min (bit_at i d.pending_irq) (bit_at i bits) ≡ 0)
      × ((bit_and flags bits ≢ 0) ⊎ (bit_at 22 flags ≡ 1))

  hit_or-Answered :
      (bits i : ℕ) (d : Chip b) (otherwise : Chip b × Result b.BusError ℕ) (flags : ℕ)
      → bits < 2 ^ 32
      → i < 32
      → (bit_and d.pending_irq bits ≡ 0
          → otherwise.1 ≡ ok flags
          → Answered bits i otherwise.0 flags)
      → (hit_or b bits d otherwise).1 ≡ ok flags
      → Answered bits i (hit_or b bits d otherwise).0 flags
  hit_or-Answered bits i d otherwise flags h l k e =
      let p = d.pending_irq in
      elim (Bool-cases (bit_and p bits == 0)) [
        | inl t ↦ rw t (k ((==_iff (bit_and p bits) 0).0 t) (rw t at e))
        | inr t ↦
            let q : p ≡ flags = ground (arith, rw t at e) in
            rw t (
              omega (arith, bit_at-consumed p bits i h l, bit_at-le_one i bits),
              inl (λ z. absurd (ground (arith, t, q, z))),
            )
      ]

  -- What was folded, and then what the rest of a round gives.
  round-Answered :
      (bits i flags : ℕ) (r : Chip b × Result b.BusError (Unit {0}))
      (otherwise : Chip b → Chip b × Result b.BusError ℕ)
      → bits < 2 ^ 32
      → i < 32
      → ((d : Chip b)
          → bit_and d.pending_irq bits ≡ 0
          → (otherwise d).1 ≡ ok flags
          → Answered bits i (otherwise d).0 flags)
      → (continue r (λ u d. hit_or b bits d (otherwise d))).1 ≡ ok flags
      → Answered bits i (continue r (λ u d. hit_or b bits d (otherwise d))).0 flags
  round-Answered bits i flags (d, ok u) otherwise h l k e =
      hit_or-Answered bits i d (otherwise d) flags h l (k d) e
  round-Answered bits i flags (d, err x) otherwise h l k e = absurd (ground arith)

  wait_rounds-Answered :
      (left bits i flags : ℕ) (c : Chip b)
      → bits < 2 ^ 32
      → i < 32
      → (wait_rounds b left bits c).1 ≡ ok flags
      → Answered bits i (wait_rounds b left bits c).0 flags
  unfolding wait_rounds
  wait_rounds-Answered zero bits i flags c h l e =
      round-Answered bits i flags (fold_irq b c) (λ d. (d, ok (bit_or d.pending_irq Irq.nre))) h l
        (λ d z q. (
          sym (bit_at-and i d.pending_irq bits) ∙ ap (bit_at i) z ∙ bit_at-zero i,
          inr (
              let f : bit_or d.pending_irq Irq.nre ≡ flags = ground arith in
              sym (ap (bit_at 22) f)
              ∙ bit_at-or 22 d.pending_irq Irq.nre
              ∙ omega (arith, bit_at-le_one 22 d.pending_irq)),
        ))
        e
  wait_rounds-Answered (suc left) bits i flags c h l e =
      round-Answered bits i flags (fold_irq b c)
        (λ d. wait_rounds b left bits (record d { bus = b.wait 250 d.bus })) h l
        (λ d z q.
          wait_rounds-Answered left bits i flags (record d { bus = b.wait 250 d.bus }) h l q)
        e

  -- A wait that the bus does not fail ends with one of the flags asked for, or flags the timeout; the
  -- flags asked for are not pending behind it, so that the next wait does not see them again.
  pub wait_irq-Answered :
      (c : Chip b) (bits timeout_ms flags i : ℕ)
      → bits < 2 ^ 32
      → i < 32
      → (wait_irq b bits timeout_ms c).1 ≡ ok flags
      → (min (bit_at i (wait_irq b bits timeout_ms c).0.pending_irq) (bit_at i bits) ≡ 0)
        × ((bit_and flags bits ≢ 0) ⊎ (bit_at 22 flags ≡ 1))
  unfolding wait_irq
  wait_irq-Answered c bits timeout_ms flags i h l e =
      wait_rounds-Answered (timeout_ms * 4) bits i flags c h l e

-- The clamping of a number of ticks to 16 bits.
clamped :
    (step ms t : ℕ)
    → ms * 13560000 ≤ t * (step * 1000)
    → let n = max 1 (min t 0xFFFF) in
      (1 ≤ n) × (n ≤ 0xFFFF) × ((n ≡ 0xFFFF) ⊎ (ms * 13560000 ≤ n * (step * 1000)))
clamped step ms t h = elim (dec_le 0xFFFF t) [
  | yes l ↦ (omega arith, omega arith, inl (omega arith))
  | no l ↦ elim (dec_le 1 t) [
    | yes k ↦
        let e : max 1 (min t 0xFFFF) ≡ t = omega arith in (omega arith, omega arith, inr (rw e h))
    | no k ↦
        let none : t ≡ 0 = omega arith in
        let h' : ms * 13560000 ≤ 0 * (step * 1000) = rw none at h in
        (omega arith, omega arith, inr (omega arith))
  ]
]

-- The ticks of the no-response timer fit its 16 bits, are never none, and last as long as was asked
-- for, unless 16 bits hold no more.
pub ticks_of-covers :
    (slow : Bool) (ms : ℕ)
    → let step : ℕ = if slow then 4096 else 64 in
      (1 ≤ ticks_of step ms)
      × (ticks_of step ms ≤ 0xFFFF)
      × ((ticks_of step ms ≡ 0xFFFF) ⊎ (ms * 13560000 ≤ ticks_of step ms * (step * 1000)))
unfolding ticks_of
ticks_of-covers true ms = clamped 4096 ms _ (omega arith)
ticks_of-covers false ms = clamped 64 ms _ (omega arith)
