-- ===== src/Panel/Driver/Shown.antt =====
-- The pixels of the controller behind `refresh_fastest` of ssd1677/mod.rs, and `apply_mono_region` of
-- ssd1677/framebuffer.rs.
use paper_name_plate.Base.{ℕ, ◌+◌, ◌-◌, ◌/◌, ◌≤◌, ◌<◌, ◌≡◌, List}
use paper_name_plate.Base.{Bool, ◌&&◌, leb, ltb, length}
use paper_name_plate.Panel.FrameBuffer.{FrameBuffer}
use paper_name_plate.Panel.Driver.Refresh.{refresh_fastest}
use paper_name_plate.Panel.Driver.Chip.{Memory, controller, screen}

-- A pixel's byte is touched by a region.
abbrev pub touched : (x0 w y0 h y b : ℕ) → Bool
touched x0 w y0 h y b = (leb y0 y && ltb y (y0 + h)) && (leb (x0 / 8) b && leb b ((x0 + w - 1) / 8))

module _ (new old_lsb : List ℕ) (m : Memory) (on odd : Bool) (x0 w y0 h y b : ℕ)
    (new_whole : length new ≡ 48000) (lsb_whole : length old_lsb ≡ 48000) (wide : 1 ≤ w)
    (right : x0 + w ≤ 800) (high : 1 ≤ h) (low : y0 + h ≤ 480) (row : y < 480)
    (column : b < 100) where
  -- The controller behind the refresh.
  abbrev behind : List ℕ → Memory
  behind old_msb =
      (refresh_fastest controller new old_lsb old_msb x0 w y0 h (screen m on odd)).0.wire
