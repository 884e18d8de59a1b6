-- ===== src/Panel/FrameBuffer.antt =====
-- `FrameBuffer` of ssd1677/framebuffer.rs: two bit planes in the order of the controller's memory.
pub mod Bits
pub mod Pixels
pub mod Fill
pub mod Regions
use paper_name_plate.Base.{
  ℕ, ◌+◌, ◌-◌, ◌*◌, ◌/◌, ◌%◌, ◌^◌, min, List, [], ◌∷◌, Bool, true, false, not, ◌&&◌, ◌||◌,
}
use paper_name_plate.Base.{Option, none, some, bit_and, bit_or, ltb, leb, ◌==◌, if◌then◌else◌}
use paper_name_plate.Base.{length, get_or, set, replicate, get_elem?, take, drop, write_at}
use paper_name_plate.Base.Int.{ℤ, pos, negsuc}

abbrev pub width : ℕ
width = 480

abbrev pub height : ℕ
height = 800

abbrev pub row_bytes : ℕ
row_bytes = height / 8

abbrev pub plane_bytes : ℕ
plane_bytes = row_bytes * width

pub record Orientation : Type 0 where
  pub flip_x : Bool
  pub flip_y : Bool

pub record FrameBuffer : Type 0 where
  pub lsb : List ℕ
  pub msb : List ℕ
  pub orientation : Orientation

-- All white.
unfoldable pub new : FrameBuffer
new = record {
  lsb = replicate plane_bytes 0xFF;
  msb = replicate plane_bytes 0xFF;
  orientation = record { flip_x = false; flip_y = false };
}

unfoldable pub clear_white : FrameBuffer → FrameBuffer
clear_white fb = record fb {
  lsb = replicate (length fb.lsb) 0xFF;
  msb = replicate (length fb.msb) 0xFF;
}

unfoldable pub clear_black : FrameBuffer → FrameBuffer
clear_black fb = record fb {
  lsb = replicate (length fb.lsb) 0x00;
  msb = replicate (length fb.msb) 0x00;
}

-- The column and the row in the memory. A flip of a coordinate outside the panel overflows.
abbrev pub ram_x : Orientation → ℕ → ℕ
ram_x o x = if o.flip_x then width - 1 - x else x

abbrev pub ram_y : Orientation → ℕ → ℕ
ram_y o y = if o.flip_y then height - 1 - y else y

-- The index and the mask of a pixel.
unfoldable pub locate : Orientation → ℕ → ℕ → ℕ × ℕ
locate o x y = (ram_x o x * row_bytes + ram_y o y / 8, 0x80 / 2 ^ (ram_y o y % 8))

-- `|= bit` or `&= !bit` on a byte
unfoldable pub put_bit : ℕ → ℕ → Bool → ℕ
put_bit b bit on = if on then bit_or b bit else bit_and b (255 - bit)

-- `& bit != 0`
unfoldable pub has_bit : ℕ → ℕ → Bool
has_bit b bit = not (bit_and b bit == 0)

abbrev pub put : List ℕ → ℕ × ℕ → Bool → List ℕ
put plane (idx, bit) on = set plane idx (put_bit (get_or plane idx 0) bit on)

-- Outside the panel nothing is set.
unfoldable pub set_pixel : FrameBuffer → ℤ → ℤ → ℕ → FrameBuffer
set_pixel fb (pos x) (pos y) level = if leb width x || leb height y then fb else record fb {
  lsb = put fb.lsb (locate fb.orientation x y) (has_bit level 1);
  msb = put fb.msb (locate fb.orientation x y) (has_bit level 2);
}
set_pixel fb (pos x) (negsuc y) level = fb
set_pixel fb (negsuc x) y level = fb

abbrev pub to_u8 : Bool → ℕ
to_u8 b = if b then 1 else 0

unfoldable pub read_level : Option ℕ → Option ℕ → ℕ → Option ℕ
read_level (some l) (some m) bit = some (bit_or (to_u8 (has_bit l bit)) (to_u8 (has_bit m bit) * 2))
read_level (some l) none bit = none
read_level none m bit = none

-- `none` where the code panics: the flip overflows, or the index is out of range.
unfoldable pub get_pixel : FrameBuffer → ℕ → ℕ → Option ℕ
get_pixel fb x y =
    let o = fb.orientation in
    let (idx, bit) = locate o x y in
    if (o.flip_x && leb width x) || (o.flip_y && leb height y)
    then none
    else read_level (get_elem? fb.lsb idx) (get_elem? fb.msb idx) bit

-- `copy_from` keeps the orientation.
unfoldable pub copy_from : FrameBuffer → FrameBuffer → FrameBuffer
copy_from fb src = record fb { lsb = src.lsb; msb = src.msb }
