-- ===== src/Panel/Driver/Spans.antt =====
-- The bytes of a row that a window of ssd1677/mod.rs touches.
use paper_name_plate.Base.{
  ℕ, ◌+◌, ◌-◌, ◌*◌, ◌/◌, ◌≤◌, ◌<◌, ◌≡◌, refl, arith, true, bit_or, ◌==◌, ==_iff,
}
use paper_name_plate.Base.Bits.{holds_to, holds_to-at}
use paper_name_plate.Panel.Driver.{byte_span}

seven_table : holds_to 800 (λ v. bit_or v 7 == v / 8 * 8 + 7) ≡ true
unfolding holds_to
seven_table = refl

pub seven : (v : ℕ) → v < 800 → bit_or v 7 ≡ v / 8 * 8 + 7
seven v h = (==_iff _ _).0 (holds_to-at 800 _ v seven_table h)

-- A window within the panel is covered by whole bytes within the row, and by no more bytes than it
-- touches.
pub byte_span-covers :
    (x0 w : ℕ)
    → 1 ≤ w
    → x0 + w ≤ 800
    → let span = byte_span x0 w in
      (span.0 * 8 ≤ x0)
      × (x0 < (span.0 + 1) * 8)
      × (x0 + w ≤ (span.0 + span.1) * 8)
      × ((span.0 + span.1) * 8 < x0 + w + 8)
      × (span.0 + span.1 ≤ 100)
unfolding byte_span
byte_span-covers x0 w h k =
    let e = seven (x0 + w - 1) (omega arith) in
    (omega arith, omega arith, omega (arith, e), omega (arith, e), omega (arith, e))
