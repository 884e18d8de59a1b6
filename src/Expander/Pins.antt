-- ===== src/Expander/Pins.antt =====
-- The expander as fourteen pins: what `set_output` and `write` do to each.
use paper_name_plate.Base.{
  ℕ, ◌-◌, ◌^◌, ◌≤◌, ◌<◌, ◌≡◌, refl, sym, ap, ◌∙◌, arith, Bool, true, false, ◌&&◌,
}
use paper_name_plate.Base.{ltb, ◌==◌, if◌then◌else◌, ==_iff, lt→ltb, le→ltb}
use paper_name_plate.Base.Bits.{holds_to, holds_to-at}
use paper_name_plate.Base.Digits.{bit_at, bit_at-le_one, bit_at-zero}
use native.Mathlib.Decide.{dec_lt, ℕ_discrete}
use paper_name_plate.Base.Results.{ok}
use paper_name_plate.Base.Io.{pure, fail, ◌>>=◌}
use paper_name_plate.Bus.{Bus}
use paper_name_plate.Bus.Device.{RegisterFile, bit_at-merged, update_u8_lem}
use paper_name_plate.Bus.Registers.{merged, update_u8}
use paper_name_plate.Expander.{ioe1_addr, split_pin, bank, write_pin, gpio_out_l, gpio_out_h}

-- The pins as their user sees them: which level is put on each.
abbrev pub Levels : Type 0
Levels = ℕ → ℕ

abbrev pub level_of : Bool → ℕ
level_of high = if high then 1 else 0

-- What `write` promises: the level of one pin is new, the others stay.
abbrev pub put_level : ℕ → Bool → Levels → Levels
put_level pin high levels q = if q == pin then level_of high else levels q

mask_table :
    holds_to 8 (λ i. holds_to 8 (λ j. bit_at j (2 ^ i) == (if j == i then 1 else 0))) ≡ true
unfolding holds_to
mask_table = refl

bit_at-mask : (i j : ℕ) → i < 8 → j < 8 → bit_at j (2 ^ i) ≡ (if j == i then 1 else 0)
bit_at-mask i j h k = (==_iff _ _).0 (holds_to-at 8 _ j (holds_to-at 8 _ i mask_table h) k)

mask-lt_table : holds_to 8 (λ i. ltb (2 ^ i) 256) ≡ true
unfolding holds_to
mask-lt_table = refl

mask-lt : (i : ℕ) → i < 8 → 2 ^ i < 256
mask-lt i h = let e = holds_to-at 8 (λ i. ltb (2 ^ i) 256) i mask-lt_table h in ground arith

module _ (b : Bus) (chip : RegisterFile b ioe1_addr) where
  open chip use {reg}

  -- The levels that the registers of the chip stand for.
  abbrev pub levels_of : b.State → Levels
  levels_of s q = if ltb q 8 then bit_at q (reg s gpio_out_l) else bit_at (q - 8) (reg s gpio_out_h)

  bit_at-put :
      (cur i j : ℕ) (high : Bool)
      → i < 8
      → j < 8
      → bit_at j (merged b cur (2 ^ i) (if high then 2 ^ i else 0))
        ≡ (if j == i then level_of high else bit_at j cur)
  bit_at-put cur i j true h k =
      bit_at-merged b cur (2 ^ i) (2 ^ i) j (mask-lt i h) k
      ∙ ground (arith, bit_at-mask i j h k, bit_at-le_one j cur)
  bit_at-put cur i j false h k =
      bit_at-merged b cur (2 ^ i) 0 j (mask-lt i h) k
      ∙ ground (arith, bit_at-mask i j h k, bit_at-le_one j cur, bit_at-zero j)

  -- The update of one bit of a register, seen at a bit of a register.
  update_bit :
      (s : b.State) (r i q j : ℕ) (high : Bool)
      → i < 8
      → j < 8
      → (update_u8 b ioe1_addr r (2 ^ i) (if high then 2 ^ i else 0) s).1 ≡ ok tt
      → bit_at j (reg (update_u8 b ioe1_addr r (2 ^ i) (if high then 2 ^ i else 0) s).0 q)
        ≡ (if r == q && j == i then level_of high else bit_at j (reg s q))
  update_bit s r i q j high h k e =
      let value = if high then 2 ^ i else 0 in
      let t = (update_u8 b ioe1_addr r (2 ^ i) value s).0 in
      let u = update_u8_lem b ioe1_addr chip s r (2 ^ i) value q (ground (arith, mask-lt i h)) e in
      elim (ℕ_discrete r q) [
        | yes p ↦
            let here : reg t q ≡ merged b (reg s r) (2 ^ i) value = ground (arith, u, p) in
            ap (bit_at j) here
            ∙ bit_at-put (reg s r) i j high h k
            ∙ ground (arith, p, ap (λ c. bit_at j (reg s c)) p)
        | no n ↦
            let there : reg t q ≡ reg s q = ground (arith, u, n) in
            ap (bit_at j) there ∙ ground (arith, n)
      ]

  write_pin-low :
      (s : b.State) (pin : ℕ) (high : Bool)
      → pin < 8
      → write_pin b pin high s
        ≡ update_u8 b ioe1_addr gpio_out_l (2 ^ pin) (if high then 2 ^ pin else 0) s
  unfolding write_pin bank split_pin ◌>>=◌ pure fail
  write_pin-low s pin high h = rw (lt→ltb pin 8 h) refl

  write_pin-high :
      (s : b.State) (pin : ℕ) (high : Bool)
      → 8 ≤ pin
      → write_pin b pin high s
        ≡ update_u8 b ioe1_addr gpio_out_h (2 ^ (pin - 8)) (if high then 2 ^ (pin - 8) else 0) s
  unfolding write_pin bank split_pin ◌>>=◌ pure fail
  write_pin-high s pin high h = rw (le→ltb pin 8 h) refl

  -- `write` does to the registers what `put_level` does to the levels of the pins: on a chip whose
  -- registers hold what is written, a write that succeeds sets the level of its pin, and of no other.
  pub write_pin-put_level :
      (s : b.State) (pin q : ℕ) (high : Bool)
      → pin < 14
      → q < 14
      → (write_pin b pin high s).1 ≡ ok tt
      → levels_of (write_pin b pin high s).0 q ≡ put_level pin high (levels_of s) q
  write_pin-put_level s pin q high h k e = elim (dec_lt pin 8) [
    | yes p ↦
        let w = write_pin-low s pin high p in
        let done = sym (ap (λ r. r.1) w) ∙ e in
        ap (λ r. levels_of r.0 q) w
        ∙ ground (
          arith,
          update_bit s gpio_out_l pin gpio_out_l q high p,
          update_bit s gpio_out_l pin gpio_out_h (q - 8) high p,
          done,
        )
    | no p ↦
        let w = write_pin-high s pin high (omega arith) in
        let done = sym (ap (λ r. r.1) w) ∙ e in
        ap (λ r. levels_of r.0 q) w
        ∙ ground (
          arith,
          update_bit s gpio_out_h (pin - 8) gpio_out_l q high,
          update_bit s gpio_out_h (pin - 8) gpio_out_h (q - 8) high,
          done,
        )
  ]
