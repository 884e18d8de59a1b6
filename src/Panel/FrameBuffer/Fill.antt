-- ===== src/Panel/FrameBuffer/Fill.antt =====
-- Fills of the frame buffer: `clear`, `draw_iter` and `fill_solid` in
-- ssd1677/framebuffer.rs.
use paper_name_plate.Base.{
  ℕ, zero, suc, ◌+◌, ◌*◌, ◌/◌, ◌%◌, ◌<◌, ◌≡◌, refl, ap, ap₂, ◌∙◌, sym, arith, inl, inr, Bool-cases,
}
use paper_name_plate.Base.{
  List, [], ◌∷◌, Bool, true, false, not, ◌&&◌, ◌||◌, some, length, get_or, replicate,
  length-replicate,
}
use paper_name_plate.Base.{leb, ltb, ◌==◌, if◌then◌else◌, bit_or}
use paper_name_plate.Base.Int.{ℤ, pos, negsuc, add_ℕ}
use paper_name_plate.Base.Bits.{holds_to, holds_to-at}
use paper_name_plate.Panel.FrameBuffer.{
  FrameBuffer, width, height, set_pixel, get_pixel, has_bit, to_u8, plane_bytes, ram_x, ram_y,
}
use paper_name_plate.Panel.FrameBuffer.Bits.{mask, level_bits}
use paper_name_plate.Panel.FrameBuffer.Pixels.{
  IsFrame, hits, get_pixel_lem, get_pixel-set_pixel, set_pixel-IsFrame,
}

-- `clear`
unfoldable pub clear : FrameBuffer → ℕ → FrameBuffer
clear fb v = record fb {
  lsb = replicate (length fb.lsb) (if has_bit v 1 then 0xFF else 0x00);
  msb = replicate (length fb.msb) (if has_bit v 2 then 0xFF else 0x00);
}

-- `draw_iter`, over the pixels that the iterator yields: column, row and level.
unfoldable pub draw_iter : FrameBuffer → List (ℤ × ℤ × ℕ) → FrameBuffer
draw_iter fb [] = fb
draw_iter fb ((x, y, level) ∷ ps) = draw_iter (set_pixel fb x y level) ps

-- `Rectangle` of embedded-graphics: its left upper corner and its size.
pub record Rectangle : Type 0 where
  pub x : ℤ
  pub y : ℤ
  pub w : ℕ
  pub h : ℕ

-- Is the natural number `a` one of the `n` integers from `z` on?
abbrev pub spans : ℤ → ℕ → ℕ → Bool
spans (pos x) n a = leb x a && ltb a (x + n)
spans (negsuc k) n a = ltb (a + suc k) n

-- Is it the natural number `a`?
abbrev at : ℤ → ℕ → Bool
at (pos x) a = x == a
at (negsuc k) a = false

-- Does a pixel lie in a rectangle?
abbrev pub inside : Rectangle → ℕ → ℕ → Bool
inside r a b = spans r.x r.w a && spans r.y r.h b

-- `Rectangle::intersection` of embedded-graphics: of two rectangles, the points that lie in both.
pub record Geometry : Type 0 where
  pub intersection : Rectangle → Rectangle → Rectangle
  pub in_both :
      (r s : Rectangle) (a b : ℕ) → inside (intersection r s) a b ≡ (inside r a b && inside s a b)

-- `bounding_box`, of the size that `size` gives.
abbrev pub bounding_box : Rectangle
bounding_box = record { x = pos 0; y = pos 0; w = width; h = height }

abbrev pub is_zero_sized : Rectangle → Bool
is_zero_sized r = r.w == 0 || r.h == 0

-- The inner loop of `fill_solid`: the rows from `y` on.
unfoldable pub fill_column : FrameBuffer → ℤ → ℤ → ℕ → ℕ → FrameBuffer
fill_column fb x y zero level = fb
fill_column fb x y (suc h) level = fill_column (set_pixel fb x y level) x (add_ℕ y 1) h level

-- The outer loop: the columns from `x` on.
unfoldable pub fill_columns : FrameBuffer → ℤ → ℕ → ℤ → ℕ → ℕ → FrameBuffer
fill_columns fb x zero y h level = fb
fill_columns fb x (suc w) y h level =
    fill_columns (fill_column fb x y h level) (add_ℕ x 1) w y h level

-- `fill_solid`
unfoldable pub fill_solid : Geometry → FrameBuffer → Rectangle → ℕ → FrameBuffer
fill_solid geo fb r level =
    let area = geo.intersection r bounding_box in
    if is_zero_sized area then fb else fill_columns fb area.x area.w area.y area.h level

spans-next : (z : ℤ) (n a : ℕ) → spans z (suc n) a ≡ (at z a || spans (add_ℕ z 1) n a)
spans-next (pos x) n a = ground arith
spans-next (negsuc zero) n a = ground arith
spans-next (negsuc (suc k)) n a = ground arith

fill_column-IsFrame :
    (fb : FrameBuffer) (x y : ℤ) (h level : ℕ) → IsFrame fb → IsFrame (fill_column fb x y h level)
unfolding fill_column
fill_column-IsFrame fb x y zero level v = v
fill_column-IsFrame fb x y (suc h) level v =
    fill_column-IsFrame (set_pixel fb x y level) x (add_ℕ y 1) h level
      (set_pixel-IsFrame fb x y level v)

either_first {ℓ} :
    {A : Type ℓ}
    → (u w : A) (p q r : Bool)
    → (if p && r then u else if p && q then u else w) ≡ (if p && (q || r) then u else w)
either_first u w true true true = refl
either_first u w true true false = refl
either_first u w true false r = refl
either_first u w false q r = refl

either_column {ℓ} :
    {A : Type ℓ}
    → (u w : A) (p q r : Bool)
    → (if q && r then u else if p && r then u else w) ≡ (if (p || q) && r then u else w)
either_column u w true true true = refl
either_column u w true true false = refl
either_column u w true false r = refl
either_column u w false true true = refl
either_column u w false true false = refl
either_column u w false false r = refl

spans-none : (z : ℤ) (a : ℕ) → spans z 0 a ≡ false
spans-none (pos x) a = ground arith
spans-none (negsuc k) a = ground arith

hits-at : (x y : ℤ) (a b : ℕ) → hits x y a b ≡ (at x a && at y b)
hits-at (pos x) (pos y) a b = refl
hits-at (pos x) (negsuc y) a b = ground arith
hits-at (negsuc x) y a b = ground arith

get_pixel-fill_column :
    (fb : FrameBuffer) (x y : ℤ) (h level a b : ℕ)
    → IsFrame fb
    → level < 256
    → a < 480
    → b < 800
    → get_pixel (fill_column fb x y h level) a b
      ≡ (if at x a && spans y h b then some (level % 4) else get_pixel fb a b)
unfolding fill_column
get_pixel-fill_column fb x y zero level a b v l p q = ground (arith, spans-none y b)
get_pixel-fill_column fb x y (suc h) level a b v l p q =
    let next = set_pixel fb x y level in
    get_pixel-fill_column next x (add_ℕ y 1) h level a b (set_pixel-IsFrame fb x y level v) l p q
    ∙ rw (get_pixel-set_pixel fb v x y level a b l p q, hits-at x y a b, spans-next y h b)
        (either_first (some (level % 4)) (get_pixel fb a b) (at x a) (at y b)
          (spans (add_ℕ y 1) h b))

get_pixel-fill_columns :
    (fb : FrameBuffer) (x : ℤ) (w : ℕ) (y : ℤ) (h level a b : ℕ)
    → IsFrame fb
    → level < 256
    → a < 480
    → b < 800
    → get_pixel (fill_columns fb x w y h level) a b
      ≡ (if spans x w a && spans y h b then some (level % 4) else get_pixel fb a b)
unfolding fill_columns
get_pixel-fill_columns fb x zero y h level a b v l p q = ground (arith, spans-none x a)
get_pixel-fill_columns fb x (suc w) y h level a b v l p q =
    let next = fill_column fb x y h level in
    get_pixel-fill_columns next (add_ℕ x 1) w y h level a b (fill_column-IsFrame fb x y h level v) l
      p q
    ∙ rw (get_pixel-fill_column fb x y h level a b v l p q, spans-next x w a)
        (either_column (some (level % 4)) (get_pixel fb a b) (at x a) (spans (add_ℕ x 1) w a)
          (spans y h b))

spans-empty : (z : ℤ) (n a : ℕ) → n ≡ 0 → spans z n a ≡ false
spans-empty (pos x) n a h = ground arith
spans-empty (negsuc k) n a h = ground arith

zero_sized-inside : (r : Rectangle) (a b : ℕ) → is_zero_sized r ≡ true → inside r a b ≡ false
zero_sized-inside r a b z = elim (Bool-cases (r.w == 0)) [
  | inl e ↦ rw (spans-empty r.x r.w a (ground arith)) refl
  | inr e ↦
      let no_rows : r.h ≡ 0 = ground arith in
      elim (Bool-cases (spans r.x r.w a)) [
        | inl f ↦ rw f (spans-empty r.y r.h b no_rows)
        | inr f ↦ rw f refl
      ]
]

-- A filled area, which may reach off the panel on any side or be empty, has the level in each of its
-- pixels that lies on the panel, and the other pixels of the panel are as they were.
pub get_pixel-fill_solid :
    (geo : Geometry) (fb : FrameBuffer) (r : Rectangle) (level a b : ℕ)
    → IsFrame fb
    → level < 256
    → a < 480
    → b < 800
    → get_pixel (fill_solid geo fb r level) a b
      ≡ (if inside r a b then some (level % 4) else get_pixel fb a b)
unfolding fill_solid
get_pixel-fill_solid geo fb r level a b v l p q =
    let area = geo.intersection r bounding_box in
    let on_panel : inside bounding_box a b ≡ true = ground arith in
    let same : inside area a b ≡ inside r a b =
      geo.in_both r bounding_box a b ∙ rw on_panel (ground arith) in
    elim (Bool-cases (is_zero_sized area)) [
      | inl z ↦ rw z (rw (sym same, zero_sized-inside area a b z) refl)
      | inr z ↦ rw z (
          get_pixel-fill_columns fb area.x area.w area.y area.h level a b v l p q
          ∙ ap (λ c. if c then some (level % 4) else get_pixel fb a b) same)
    ]

filled_table : holds_to 8 (λ k. has_bit 0xFF (mask k)) ≡ true
unfolding holds_to has_bit
filled_table = refl

get_or-replicate : (n b i : ℕ) → i < n → get_or (replicate n b) i 0 ≡ b
get_or-replicate zero b i h = absurd (omega arith)
get_or-replicate (suc n) b zero h = refl
get_or-replicate (suc n) b (suc i) h = get_or-replicate n b i (omega arith)

empty_table : holds_to 8 (λ k. not (has_bit 0x00 (mask k))) ≡ true
unfolding holds_to has_bit
empty_table = refl

cleared_bit : (on : Bool) (k : ℕ) → k < 8 → has_bit (if on then 0xFF else 0x00) (mask k) ≡ on
cleared_bit true k h = holds_to-at 8 _ k filled_table h
cleared_bit false k h =
    let e = holds_to-at 8 (λ k. not (has_bit 0x00 (mask k))) k empty_table h in ground arith

-- After `clear` every pixel of the panel has the level.
pub get_pixel-clear :
    (fb : FrameBuffer) (v x y : ℕ)
    → IsFrame fb
    → v < 256
    → x < 480
    → y < 800
    → get_pixel (clear fb v) x y ≡ some (v % 4)
unfolding clear
get_pixel-clear fb v x y f l p q =
    let o = fb.orientation in
    let i = ram_x o x * 100 + ram_y o y / 8 in
    let inside : i < plane_bytes = ground arith in
    get_pixel_lem (clear fb v) x y (length-replicate {A = ℕ} (length fb.lsb) _ ∙ f.lsb_whole)
      (length-replicate {A = ℕ} (length fb.msb) _ ∙ f.msb_whole) p q
    ∙ ap₂ (λ a b. some (bit_or (to_u8 a) (to_u8 b * 2)))
        (ap (λ c. has_bit c (mask (ram_y o y % 8)))
            (get_or-replicate (length fb.lsb) _ i (omega (arith, f.lsb_whole)))
          ∙ cleared_bit (has_bit v 1) (ram_y o y % 8) (omega arith))
        (ap (λ c. has_bit c (mask (ram_y o y % 8)))
            (get_or-replicate (length fb.msb) _ i (omega (arith, f.msb_whole)))
          ∙ cleared_bit (has_bit v 2) (ram_y o y % 8) (omega arith))
    ∙ ap some (level_bits v l)
