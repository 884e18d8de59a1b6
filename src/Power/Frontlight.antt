-- ===== src/Power/Frontlight.antt =====
-- The brightness of the front light, as the PWM of the power controller sees it.
use paper_name_plate.Base.{
  ℕ, ◌+◌, ◌*◌, ◌/◌, ◌%◌, ◌≤◌, ◌<◌, ◌≡◌, refl, arith, true, get_or, ◌==◌, ==_iff, if◌then◌else◌,
}
use paper_name_plate.Base.Bits.{holds_to, holds_to-at}
use paper_name_plate.Power.{frontlight_bytes}

-- The duty that two bytes of the register stand for, in 4096ths, and whether the PWM is on.
abbrev pub duty_of : ℕ → ℕ
duty_of brightness =
    get_or (frontlight_bytes brightness) 0 0 + get_or (frontlight_bytes brightness) 1 0 % 16 * 256

abbrev pub on_of : ℕ → ℕ
on_of brightness = get_or (frontlight_bytes brightness) 1 0 / 16

duty_table : holds_to 256 (λ v. duty_of v == v * v / 16) ≡ true
unfolding holds_to frontlight_bytes
duty_table = refl

on_table : holds_to 256 (λ v. on_of v == (if v == 0 then 0 else 1)) ≡ true
unfolding holds_to frontlight_bytes
on_table = refl

-- The duty is the square of the brightness, in 16ths: it fits 12 bits, and grows with the brightness;
-- the PWM is off exactly at brightness 0.
pub frontlight_duty :
    (v w : ℕ)
    → v ≤ w
    → w < 256
    → (duty_of v ≡ v * v / 16)
      × (duty_of w < 4096)
      × (duty_of v ≤ duty_of w)
      × (on_of v ≡ (if v == 0 then 0 else 1))
frontlight_duty v w h k =
    let dv = (==_iff _ _).0 (holds_to-at 256 _ v duty_table (omega arith)) in
    let dw = (==_iff _ _).0 (holds_to-at 256 _ w duty_table k) in
    let o = (==_iff _ _).0 (holds_to-at 256 _ v on_table (omega arith)) in
    let sq : v * v ≤ w * w = grind arith in
    let top : w * w ≤ 255 * 255 = grind arith in (dv, omega arith, omega arith, o)
