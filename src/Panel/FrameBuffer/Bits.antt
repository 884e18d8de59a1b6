-- ===== src/Panel/FrameBuffer/Bits.antt =====
-- One bit of a byte of a plane. Over bytes every case is checked by evaluation.
use paper_name_plate.Base.{
  ℕ, ◌/◌, ◌*◌, ◌^◌, ◌%◌, ◌<◌, ◌≡◌, ◌≢◌, refl, Bool, true, false, not, ◌||◌, arith,
}
use paper_name_plate.Base.{bit_or, ◌==◌, ==_iff, ne→==, if◌then◌else◌}
use paper_name_plate.Base.Bits.{holds_to, holds_to-at}
use paper_name_plate.Panel.FrameBuffer.{put_bit, has_bit, to_u8}

-- The mask of bit `k`, from the left.
abbrev pub mask : ℕ → ℕ
mask k = 0x80 / 2 ^ k

abbrev same : Bool → Bool → Bool
same a b = if a then b else not b

same_eq : (a b : Bool) → same a b ≡ true → a ≡ b
same_eq true b h = ground arith
same_eq false b h = ground arith

put_self_table :
    (on : Bool)
    → holds_to 256 (λ b. holds_to 8 (λ k. same (has_bit (put_bit b (mask k) on) (mask k)) on))
      ≡ true
unfolding holds_to put_bit has_bit
put_self_table true = refl
put_self_table false = refl

pub has_bit-put_self :
    (b k : ℕ) (on : Bool) → b < 256 → k < 8 → has_bit (put_bit b (mask k) on) (mask k) ≡ on
has_bit-put_self b k on h l =
    same_eq _ _ (holds_to-at 8 _ k (holds_to-at 256 _ b (put_self_table on) h) l)

abbrev untouched : Bool → ℕ → ℕ → ℕ → Bool
untouched on b j k =
    (j == k) || same (has_bit (put_bit b (mask j) on) (mask k)) (has_bit b (mask k))

put_other_table :
    (on : Bool) → holds_to 256 (λ b. holds_to 8 (λ j. holds_to 8 (λ k. untouched on b j k))) ≡ true
unfolding holds_to put_bit has_bit
put_other_table true = refl
put_other_table false = refl

pub has_bit-put_other :
    (b j k : ℕ) (on : Bool)
    → b < 256
    → j < 8
    → k < 8
    → j ≢ k
    → has_bit (put_bit b (mask j) on) (mask k) ≡ has_bit b (mask k)
has_bit-put_other b j k on h p q n =
    let t : untouched on b j k ≡ true =
      holds_to-at 8 _ k (holds_to-at 8 _ j (holds_to-at 256 _ b (put_other_table on) h) p) q in
    same_eq _ _ (rw (ne→== j k n) at t)

put_byte_table :
    (on : Bool) → holds_to 256 (λ b. holds_to 8 (λ k. put_bit b (mask k) on / 256 == 0)) ≡ true
unfolding holds_to put_bit
put_byte_table true = refl
put_byte_table false = refl

pub put_bit-lt : (b k : ℕ) (on : Bool) → b < 256 → k < 8 → put_bit b (mask k) on < 256
put_bit-lt b k on h l =
    let z : put_bit b (mask k) on / 256 ≡ 0 =
      (==_iff _ _).0 (holds_to-at 8 _ k (holds_to-at 256 _ b (put_byte_table on) h) l) in
    omega arith

level_table :
    holds_to 256 (λ v. bit_or (to_u8 (has_bit v 1)) (to_u8 (has_bit v 2) * 2) == v % 4) ≡ true
unfolding holds_to has_bit
level_table = refl

-- The two bits of a level.
pub level_bits : (v : ℕ) → v < 256 → bit_or (to_u8 (has_bit v 1)) (to_u8 (has_bit v 2) * 2) ≡ v % 4
level_bits v h = (==_iff _ _).0 (holds_to-at 256 _ v level_table h)
