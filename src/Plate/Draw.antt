-- ===== src/Plate/Draw.antt =====
-- `draw` of app/plate.rs: the plate on the frame buffer. The text is set by u8g2_fonts.
pub mod Image
use paper_name_plate.Base.{
  ℕ, zero, suc, ◌+◌, ◌-◌, ◌*◌, ◌/◌, ◌%◌, ◌^◌, List, [], ◌∷◌, ◌++◌, Bool, true, false, not, ◌&&◌,
}
use paper_name_plate.Base.{Option, none, some, bit_and, leb, ltb, ◌==◌, if◌then◌else◌, get_or}
use paper_name_plate.Base.Int.{ℤ, pos, sub_ℕ, add_ℕ, double}
use paper_name_plate.Text.Utf8.{Str, as_bytes}
use paper_name_plate.Plate.Image.{MonoImage, row_bytes}
use paper_name_plate.Plate.Content.{PlateContent}
use paper_name_plate.Plate.Ndef.Write.{is_empty}
use paper_name_plate.Panel.FrameBuffer.{FrameBuffer, set_pixel, width, height}
use paper_name_plate.Panel.FrameBuffer.Fill.{Rectangle, Geometry, clear, draw_iter, fill_solid}

-- `Gray2` by its luma.
abbrev pub black : ℕ
black = 0

abbrev pub white : ℕ
white = 3

pub data Font : Type 0 where
  logisoso42 logisoso22 helv_r14 b16_japanese2 : Font

-- A rectangle from its corner and its size.
abbrev pub rectangle : (x y w h : ℕ) → Rectangle
rectangle x y w h = record { x = pos x; y = pos y; w = w; h = h }

-- What u8g2_fonts brings: the pixels of a text in a font and a colour, its baseline centred on a
-- point; and the rectangles of embedded-graphics.
pub record Fonts : Type 0 where
  pub geometry : Geometry
  pub render_aligned : Font → Str → (x y : ℕ) → (colour : ℕ) → List (ℤ × ℤ × ℕ)

-- `draw_iter` of `Scale2x`: every pixel is a block of four.
unfoldable pub scaled_iter : FrameBuffer → List (ℤ × ℤ × ℕ) → FrameBuffer
scaled_iter fb [] = fb
scaled_iter fb ((px, py, level) ∷ ps) =
    let x = double px in
    let y = double py in
    let fb1 = set_pixel fb x y level in
    let fb2 = set_pixel fb1 (add_ℕ x 1) y level in
    let fb3 = set_pixel fb2 x (add_ℕ y 1) level in
    scaled_iter (set_pixel fb3 (add_ℕ x 1) (add_ℕ y 1) level) ps

unfoldable pub all_plain : List ℕ → Bool
all_plain [] = true
all_plain (b ∷ bs) = (leb 0x20 b && ltb b 0x7F) && all_plain bs

unfoldable pub is_plain_ascii : Str → Bool
unfolding all_plain
is_plain_ascii s = all_plain (as_bytes s)

-- The bit of a pixel of an image, which has all its rows: of another the code would index behind its
-- end. `image_bit-black` says which bit it is, and that its byte is there.
unfoldable pub image_bit : MonoImage → ℕ → ℕ → Bool
image_bit img x y =
    not (bit_and (get_or img.bits (y * row_bytes img + x / 8) 0) (0x80 / 2 ^ (x % 8)) == 0)

-- The loops over `dx` and `dy`: a block of black pixels.
unfoldable pub block_row : FrameBuffer → ℤ → ℤ → (dx n : ℕ) → FrameBuffer
block_row fb x y dx zero = fb
block_row fb x y dx (suc n) = block_row (set_pixel fb (add_ℕ x dx) y 0) x y (dx + 1) n

unfoldable pub block : FrameBuffer → ℤ → ℤ → (scale dy n : ℕ) → FrameBuffer
unfolding block_row
block fb x y scale dy zero = fb
block fb x y scale dy (suc n) = block (block_row fb x (add_ℕ y dy) 0 scale) x y scale (dy + 1) n

-- The loop over `x`, `n` columns from `x` on, and the loop over `y`.
unfoldable pub image_row : MonoImage → ℤ → ℤ → (scale y x n : ℕ) → FrameBuffer → FrameBuffer
unfolding image_bit block
image_row img x0 y0 scale y x zero fb = fb
image_row img x0 y0 scale y x (suc n) fb = image_row img x0 y0 scale y (x + 1) n (
    if image_bit img x y
    then block fb (add_ℕ x0 (x * scale)) (add_ℕ y0 (y * scale)) scale 0 scale
    else fb)

unfoldable pub image_rows : MonoImage → ℤ → ℤ → (scale y n : ℕ) → FrameBuffer → FrameBuffer
unfolding image_row
image_rows img x0 y0 scale y zero fb = fb
image_rows img x0 y0 scale y (suc n) fb =
    image_rows img x0 y0 scale (y + 1) n (image_row img x0 y0 scale y 0 img.width fb)

-- `draw_image`: the image centred at a point, black pixels only.
unfoldable pub draw_image : MonoImage → (cx cy scale : ℕ) → FrameBuffer → FrameBuffer
unfolding image_rows
draw_image img cx cy scale fb =
    image_rows img (sub_ℕ cx (img.width * scale / 2)) (sub_ℕ cy (img.height * scale / 2)) scale 0
      img.height fb

abbrev pub small_scale : MonoImage → ℕ
small_scale img = if leb img.width 120 && leb img.height 100 then 2 else 1

-- An image that replaces the whole layout.
abbrev pub is_large : MonoImage → Bool
is_large img = leb 400 img.width

abbrev pub title_text : Str
title_text =
    b'P' ∷ b'A' ∷ b'P' ∷ b'E' ∷ b'R' ∷ b' ' ∷ b'N' ∷ b'A' ∷ b'M' ∷ b'E' ∷ b' ' ∷ b'P' ∷ b'L' ∷ b'A'
    ∷ b'T' ∷ b'E' ∷ []

abbrev pub footer_text : Str
footer_text =
    b'N' ∷ b'F' ∷ b'C' ∷ b':' ∷ b' ' ∷ b't' ∷ b'a' ∷ b'p' ∷ b' ' ∷ b't' ∷ b'o' ∷ b' ' ∷ b'r' ∷ b'e'
    ∷ b'c' ∷ b'e' ∷ b'i' ∷ b'v' ∷ b'e' ∷ b' ' ∷ b'/' ∷ b' ' ∷ b'w' ∷ b'r' ∷ b'i' ∷ b't' ∷ b'e'
    ∷ b' ' ∷ b't' ∷ b'o' ∷ b' ' ∷ b'u' ∷ b'p' ∷ b'd' ∷ b'a' ∷ b't' ∷ b'e' ∷ []

-- The account lines: `github.com/{}` and `@{} (X)`, empty for an empty account.
abbrev pub github_line : Str → Str
github_line s =
    if is_empty s
    then []
    else b'g' ∷ b'i' ∷ b't' ∷ b'h' ∷ b'u' ∷ b'b' ∷ b'.' ∷ b'c' ∷ b'o' ∷ b'm' ∷ b'/' ∷ s

abbrev pub x_line : Str → Str
x_line s = if is_empty s then [] else b'@' ∷ (s ++ (b' ' ∷ b'(' ∷ b'X' ∷ b')' ∷ []))

module _ (fonts : Fonts) where
  open fonts use {geometry, render_aligned}

  abbrev put_text : Font → Str → (x y : ℕ) → (colour : ℕ) → FrameBuffer → FrameBuffer
  put_text f s x y colour fb = draw_iter fb (render_aligned f s x y colour)

  -- A text of plain ASCII in one font, any other in the Japanese one.
  abbrev put_either : Font → Str → (x y : ℕ) → (colour : ℕ) → FrameBuffer → FrameBuffer
  put_either f s x y colour fb =
      put_text (if is_plain_ascii s then f else b16_japanese2) s x y colour fb

  unfoldable pub draw_name : Str → FrameBuffer → FrameBuffer
  unfolding is_plain_ascii scaled_iter
  draw_name s fb =
      if is_plain_ascii s
      then put_text logisoso42 s 240 260 black fb
      else scaled_iter fb (render_aligned b16_japanese2 s (240 / 2) 130 black)

  -- The contact lines, one below the other; an empty one takes no place.
  unfoldable pub draw_lines : List Str → (y : ℕ) → FrameBuffer → FrameBuffer
  unfolding is_plain_ascii
  draw_lines [] y fb = fb
  draw_lines (s ∷ ss) y fb =
      draw_lines ss (if is_empty s then y else y + 42)
        (if is_empty s then fb else put_either logisoso22 s 240 y 1 fb)

  unfoldable pub draw_image_below : Option MonoImage → FrameBuffer → FrameBuffer
  unfolding draw_image
  draw_image_below none fb = fb
  draw_image_below (some img) fb = draw_image img 240 660 (small_scale img) fb

  -- The layout of the text, with a small image below it.
  unfoldable pub draw_layout : PlateContent → FrameBuffer → FrameBuffer
  unfolding draw_name draw_lines draw_image_below is_plain_ascii
  draw_layout c fb =
      let fb1 = fill_solid geometry fb (rectangle 0 0 width 60) black in
      let fb2 = put_text helv_r14 title_text 240 38 white fb1 in
      let fb3 = draw_name c.name fb2 in
      let fb4 = draw_lines (c.email ∷ github_line c.github ∷ x_line c.x ∷ []) 318 fb3 in
      let fb5 = fill_solid geometry fb4 (rectangle 60 430 (width - 120) 3) 2 in
      let fb6 = if is_empty c.url then fb5 else put_text helv_r14 c.url 240 490 black fb5 in
      let fb7 = if is_empty c.note then fb6 else put_either helv_r14 c.note 240 540 1 fb6 in
      let fb8 = draw_image_below c.image fb7 in
      put_text helv_r14 footer_text 240 (height - 30) 1 fb8

  -- `draw`
  unfoldable pub draw : PlateContent → FrameBuffer → FrameBuffer
  unfolding draw_layout draw_image
  draw c fb =
      let page = clear fb white in
      elim c.image [
        | none ↦ draw_layout c page
        | some img ↦ if is_large img then draw_image img 240 400 1 page else draw_layout c page
      ]
