-- ===== src/Tests/Data.antt =====
-- Sample data: a small image, and what is known of it.
use paper_name_plate.Base.{[], ◌∷◌, All, arith}
use paper_name_plate.Base.Bytes.{IsByte}
use paper_name_plate.Plate.Image.{MonoImage}
use paper_name_plate.Plate.Image.Codec.{IsImage}

-- 12 pixels wide, 2 high
abbrev pub checks : MonoImage
checks = record { width = 12; height = 2; bits = 0xAA ∷ 0xA0 ∷ 0x55 ∷ 0x50 ∷ [] }

pub checks-IsImage : IsImage checks
checks-IsImage = record {
  wide = omega arith;
  width_fits = omega arith;
  high = omega arith;
  height_fits = omega arith;
  rows = omega arith;
}

pub checks-IsByte : All IsByte checks.bits
checks-IsByte = (omega arith, (omega arith, (omega arith, (omega arith, tt))))
