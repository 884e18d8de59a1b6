-- ===== src/Plate/Draw/Image.antt =====
-- The pixels of `draw_image` in app/plate.rs.
use paper_name_plate.Base.{
  ℕ, zero, suc, ◌+◌, ◌-◌, ◌*◌, ◌/◌, ◌%◌, ◌^◌, min, ◌≤◌, ◌<◌, ◌≡◌, ◌≢◌, ◌∙◌, ap, refl, arith, Bool,
  false, true, not, bit_and, leb, ltb, get_or, length, ==_iff,
}
use paper_name_plate.Base.{some, ◌&&◌, ◌||◌, ◌==◌, if◌then◌else◌, Bool-cases, inl, inr}
use paper_name_plate.Base.Bits.{holds_to, holds_to-at}
use paper_name_plate.Base.Digits.{
  bit_at, bit_at-zero, bit_at-le_one, bit_at-and, bits_eq, bit_and-le_right,
}
use paper_name_plate.Plate.Image.{row_bytes}
use paper_name_plate.Plate.Image.Codec.{IsImage}
use paper_name_plate.Base.Int.{pos, sub_ℕ-pos}
use paper_name_plate.Plate.Image.{MonoImage}
use paper_name_plate.Plate.Draw.{image_bit, block_row, block, image_row, image_rows, draw_image}
use paper_name_plate.Panel.FrameBuffer.{FrameBuffer, get_pixel, set_pixel}
use paper_name_plate.Panel.FrameBuffer.Pixels.{IsFrame, get_pixel-set_pixel, set_pixel-IsFrame}

-- Is `a` one of the `n` numbers from `x` on?
abbrev pub among : ℕ → ℕ → ℕ → Bool
among x n a = leb x a && ltb a (x + n)

block_row-IsFrame :
    (fb : FrameBuffer) (x y dx n : ℕ) → IsFrame fb → IsFrame (block_row fb (pos x) (pos y) dx n)
unfolding block_row
block_row-IsFrame fb x y dx zero v = v
block_row-IsFrame fb x y dx (suc n) v =
    block_row-IsFrame (set_pixel fb (pos (x + dx)) (pos y) 0) x y (dx + 1) n
      (set_pixel-IsFrame fb (pos (x + dx)) (pos y) 0 v)

block-IsFrame :
    (fb : FrameBuffer) (x y s dy n : ℕ) → IsFrame fb → IsFrame (block fb (pos x) (pos y) s dy n)
unfolding block
block-IsFrame fb x y s dy zero v = v
block-IsFrame fb x y s dy (suc n) v =
    block-IsFrame (block_row fb (pos x) (pos (y + dy)) 0 s) x y s (dy + 1) n
      (block_row-IsFrame fb x (y + dy) 0 s v)

module _ (a b : ℕ) (p : a < 480) (q : b < 800) where
  get_pixel-block_row :
      (fb : FrameBuffer) (x y dx n : ℕ)
      → IsFrame fb
      → get_pixel (block_row fb (pos x) (pos y) dx n) a b
        ≡ (if y == b && among (x + dx) n a then some 0 else get_pixel fb a b)
  unfolding block_row
  get_pixel-block_row fb x y dx zero v = ground arith
  get_pixel-block_row fb x y dx (suc n) v =
      let next = set_pixel fb (pos (x + dx)) (pos y) 0 in
      ground (
        arith,
        get_pixel-block_row next x y (dx + 1) n (set_pixel-IsFrame fb (pos (x + dx)) (pos y) 0 v),
        get_pixel-set_pixel fb v (pos (x + dx)) (pos y) 0 a b (omega arith) p q,
      )

  get_pixel-block :
      (fb : FrameBuffer) (x y s dy n : ℕ)
      → IsFrame fb
      → get_pixel (block fb (pos x) (pos y) s dy n) a b
        ≡ (if among (y + dy) n b && among x s a then some 0 else get_pixel fb a b)
  unfolding block
  get_pixel-block fb x y s dy zero v = ground arith
  get_pixel-block fb x y s dy (suc n) v =
      let next = block_row fb (pos x) (pos (y + dy)) 0 s in
      ground (
        arith,
        get_pixel-block next x y s (dy + 1) n (block_row-IsFrame fb x (y + dy) 0 s v),
        get_pixel-block_row fb x (y + dy) 0 s v,
      )

-- A pixel of an image is black if its digit is set: the rows are whole bytes, and the first pixel of
-- a byte is its highest digit.
abbrev pub is_black : MonoImage → (x y : ℕ) → Bool
is_black img x y = bit_at (7 - x % 8) (get_or img.bits (y * ((img.width + 7) / 8) + x / 8) 0) == 1

masks_table :
    holds_to 8 (λ r. holds_to 8 (λ i. bit_at i (0x80 / 2 ^ r) == (if i == 7 - r then 1 else 0)))
    ≡ true
unfolding holds_to
masks_table = refl

mask_digit : (r i : ℕ) → r < 8 → i < 8 → bit_at i (0x80 / 2 ^ r) ≡ (if i == 7 - r then 1 else 0)
mask_digit r i h k = (==_iff _ _).0 (holds_to-at 8 _ i (holds_to-at 8 _ r masks_table h) k)

masks_small : holds_to 8 (λ r. ltb (0x80 / 2 ^ r) 256) ≡ true
unfolding holds_to
masks_small = refl

-- A mask of one digit asks for that digit.
masked_digit :
    (a r i : ℕ)
    → r < 8
    → i < 8
    → bit_at i (bit_and a (0x80 / 2 ^ r)) ≡ (if i == 7 - r then bit_at i a else 0)
masked_digit a r i h k =
    let one = bit_at-le_one i a in
    bit_at-and i a (0x80 / 2 ^ r) ∙ ap (min (bit_at i a)) (mask_digit r i h k) ∙ ground arith

masked_none : (a r : ℕ) → r < 8 → bit_at (7 - r) a ≡ 0 → bit_and a (0x80 / 2 ^ r) ≡ 0
masked_none a r h e =
    let small = holds_to-at 8 (λ r. ltb (0x80 / 2 ^ r) 256) r masks_small h in
    let m = 0x80 / 2 ^ r in
    let le = bit_and-le_right a m in
    let less : bit_and a m < 2 ^ 8 = ground arith in
    bits_eq 8 (bit_and a m) 0 less (omega arith) (λ i k.
      let z = bit_at-zero i in
      let d = masked_digit a r i h k in
      elim (Bool-cases (i == 7 - r)) [
        | inl same ↦
            let at : i ≡ 7 - r = ground arith in
            let off : bit_at i a ≡ 0 = ap (λ j. bit_at j a) at ∙ e in ground arith
        | inr other ↦ ground arith
      ])

masked : (a r : ℕ) → r < 8 → not (bit_and a (0x80 / 2 ^ r) == 0) ≡ (bit_at (7 - r) a == 1)
masked a r h =
    let digit = masked_digit a r (7 - r) h (omega arith) in
    let one = bit_at-le_one (7 - r) a in
    elim (Bool-cases (bit_at (7 - r) a == 1)) [
      | inl e ↦
          let set : bit_at (7 - r) a ≡ 1 = ground arith in
          let some_digit : bit_at (7 - r) (bit_and a (0x80 / 2 ^ r)) ≡ 1 = ground arith in
          let some_bit : bit_and a (0x80 / 2 ^ r) ≢ 0 = λ z.
            let q = ap (bit_at (7 - r)) z ∙ bit_at-zero (7 - r) in omega (arith, q, some_digit) in
          ground arith
      | inr e ↦
          let clear : bit_at (7 - r) a ≡ 0 = ground arith in
          let none = masked_none a r h clear in ground arith
    ]

image_bit-black : (img : MonoImage) (x y : ℕ) → image_bit img x y ≡ is_black img x y
unfolding image_bit
image_bit-black img x y =
    masked (get_or img.bits (y * row_bytes img + x / 8) 0) (x % 8) (omega arith)

-- Does a black pixel of the columns from `x` on, `n` of them, in row `y` of the image, or of the rows
-- from `y` on, cover the pixel (a, b)? Bit (x, y) covers a square of side `s`.
abbrev pub covers_row : MonoImage → (x0 y0 s y x n a b : ℕ) → Bool
covers_row img x0 y0 s y x zero a b = false
covers_row img x0 y0 s y x (suc n) a b =
    (is_black img x y && (among (y0 + y * s) s b && among (x0 + x * s) s a))
    || covers_row img x0 y0 s y (x + 1) n a b

abbrev pub covers : MonoImage → (x0 y0 s y n a b : ℕ) → Bool
covers img x0 y0 s y zero a b = false
covers img x0 y0 s y (suc n) a b =
    covers_row img x0 y0 s y 0 img.width a b || covers img x0 y0 s (y + 1) n a b

-- Its byte is one of the image.
pub image_bit-inside :
    (img : MonoImage) (x y : ℕ)
    → IsImage img
    → x < img.width
    → y < img.height
    → y * row_bytes img + x / 8 < length img.bits
image_bit-inside img x y v p q =
    let r = row_bytes img in
    let rows : y * r + r ≤ r * img.height = grind arith in omega (arith, v.rows, rows)

module _ (img : MonoImage) (x0 y0 s : ℕ) where
  abbrev step : FrameBuffer → (y x : ℕ) → FrameBuffer
  step fb y x =
      if image_bit img x y then block fb (pos (x0 + x * s)) (pos (y0 + y * s)) s 0 s else fb

  step-IsFrame : (fb : FrameBuffer) (y x : ℕ) → IsFrame fb → IsFrame (step fb y x)
  step-IsFrame fb y x v = elim (Bool-cases (image_bit img x y)) [
    | inl e ↦ rw e (block-IsFrame fb (x0 + x * s) (y0 + y * s) s 0 s v)
    | inr e ↦ rw e v
  ]

  image_row-IsFrame :
      (fb : FrameBuffer) (y x n : ℕ)
      → IsFrame fb
      → IsFrame (image_row img (pos x0) (pos y0) s y x n fb)
  unfolding image_row
  image_row-IsFrame fb y x zero v = v
  image_row-IsFrame fb y x (suc n) v =
      image_row-IsFrame (step fb y x) y (x + 1) n (step-IsFrame fb y x v)

  module _ (a b : ℕ) (p : a < 480) (q : b < 800) where
    get_pixel-step :
        (fb : FrameBuffer) (y x : ℕ)
        → IsFrame fb
        → get_pixel (step fb y x) a b ≡ (
            if image_bit img x y && (among (y0 + y * s) s b && among (x0 + x * s) s a)
            then some 0
            else get_pixel fb a b)
    get_pixel-step fb y x v = elim (Bool-cases (image_bit img x y)) [
      | inl e ↦ rw e (ground (arith, get_pixel-block a b p q fb (x0 + x * s) (y0 + y * s) s 0 s v))
      | inr e ↦ rw e refl
    ]

    get_pixel-image_row :
        (fb : FrameBuffer) (y x n : ℕ)
        → IsFrame fb
        → get_pixel (image_row img (pos x0) (pos y0) s y x n fb) a b
          ≡ (if covers_row img x0 y0 s y x n a b then some 0 else get_pixel fb a b)
    unfolding image_row
    get_pixel-image_row fb y x zero v = refl
    get_pixel-image_row fb y x (suc n) v = ground (
      arith,
      get_pixel-image_row (step fb y x) y (x + 1) n (step-IsFrame fb y x v),
      get_pixel-step fb y x v,
      image_bit-black img x y,
    )

    get_pixel-image_rows :
        (fb : FrameBuffer) (y n : ℕ)
        → IsFrame fb
        → get_pixel (image_rows img (pos x0) (pos y0) s y n fb) a b
          ≡ (if covers img x0 y0 s y n a b then some 0 else get_pixel fb a b)
    unfolding image_rows
    get_pixel-image_rows fb y zero v = refl
    get_pixel-image_rows fb y (suc n) v =
        let next = image_row img (pos x0) (pos y0) s y 0 img.width fb in
        ground (
          arith,
          get_pixel-image_rows next (y + 1) n (image_row-IsFrame fb y 0 img.width v),
          get_pixel-image_row fb y 0 img.width v,
        )

-- An image that has all its rows and does not reach over the left or the upper edge is drawn about
-- its centre: a pixel of the panel is black if the square of a black pixel of the image covers it,
-- and else as it was. A row of the image is whole bytes, its first pixel the highest bit.
pub draw_image-covers :
    (img : MonoImage) (cx cy s : ℕ) (fb : FrameBuffer) (a b : ℕ)
    → IsFrame fb
    → IsImage img
    → img.width * s / 2 ≤ cx
    → img.height * s / 2 ≤ cy
    → a < 480
    → b < 800
    → get_pixel (draw_image img cx cy s fb) a b ≡ (
        if covers img (cx - img.width * s / 2) (cy - img.height * s / 2) s 0 img.height a b
        then some 0
        else get_pixel fb a b)
unfolding draw_image
draw_image-covers img cx cy s fb a b v whole h k p q =
    rw (sub_ℕ-pos cx (img.width * s / 2) h, sub_ℕ-pos cy (img.height * s / 2) k)
      (get_pixel-image_rows img _ _ s a b p q fb 0 img.height v)
