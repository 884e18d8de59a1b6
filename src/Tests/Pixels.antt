-- ===== src/Tests/Pixels.antt =====
-- Pixels of a new frame buffer.
use paper_name_plate.Plate.Draw.{draw_image}
use paper_name_plate.Plate.Draw.Image.{covers, draw_image-covers}
use paper_name_plate.Tests.Data.{checks, checks-IsImage}
use paper_name_plate.Base.{ℕ, suc, ◌+◌, min, leb, Bool, true, false, refl, ap₂, ◌∙◌}
use paper_name_plate.Base.{◌-◌, ◌*◌, ◌/◌, ◌%◌, ◌≡◌, arith, some, ◌&&◌, if◌then◌else◌}
use paper_name_plate.Base.Int.{ℤ, pos, negsuc}
use paper_name_plate.Panel.FrameBuffer.{new, set_pixel, get_pixel}
use paper_name_plate.Panel.FrameBuffer.Fill.{
  Rectangle, Geometry, spans, inside, fill_solid, get_pixel-fill_solid,
}
use paper_name_plate.Panel.FrameBuffer.Pixels.{new-IsFrame, hits, get_pixel-set_pixel}

get_pixel-set_pixel_example :
    get_pixel (set_pixel new (pos 479) (pos 799) 1) 479 799
    ≡ (if hits (pos 479) (pos 799) 479 799 then some (1 % 4) else get_pixel new 479 799)
get_pixel-set_pixel_example =
    get_pixel-set_pixel new new-IsFrame (pos 479) (pos 799) 1 479 799 (omega arith) (omega arith)
      (omega arith)

-- The numbers that are natural in the part of `n` integers from `z` on.
abbrev from : ℤ → ℕ
from (pos x) = x
from (negsuc k) = 0

abbrev up_to : ℤ → ℕ → ℕ
up_to (pos x) n = x + n
up_to (negsuc k) n = n - suc k

abbrev later : ℕ → ℕ → ℕ
later x y = if leb x y then y else x

abbrev meet : (z : ℤ) → ℕ → (t : ℤ) → ℕ → ℕ
meet z n t m = min (up_to z n) (up_to t m) - later (from z) (from t)

pub meet_lem :
    (z t : ℤ) (n m a : ℕ)
    → spans (pos (later (from z) (from t))) (meet z n t m) a ≡ (spans z n a && spans t m a)
meet_lem (pos x) (pos y) n m a = ground arith
meet_lem (pos x) (negsuc k) n m a = ground arith
meet_lem (negsuc k) (pos y) n m a = ground arith
meet_lem (negsuc k) (negsuc l) n m a = ground arith

pub pairs : (p q r s : Bool) → ((p && q) && (r && s)) ≡ ((p && r) && (q && s))
pairs true q true s = refl
pairs true true false s = refl
pairs true false false s = refl
pairs false q r s = refl

-- The intersection of rectangles in the quarter plane of the natural numbers, where the panel lies.
abbrev pub quarter : Geometry
quarter = record {
  intersection = λ r s. record {
    x = pos (later (from r.x) (from s.x));
    y = pos (later (from r.y) (from s.y));
    w = meet r.x r.w s.x s.w;
    h = meet r.y r.h s.y s.h;
  };
  in_both = λ r s a b.
      ap₂ (λ p q. p && q) (meet_lem r.x s.x r.w s.w a) (meet_lem r.y s.y r.h s.h b)
      ∙ pairs (spans r.x r.w a) (spans s.x s.w a) (spans r.y r.h b) (spans s.y s.h b);
}

abbrev corner : Rectangle
corner = record { x = negsuc 4; y = pos 790; w = 18; h = 40 }

get_pixel-fill_solid_example :
    get_pixel (fill_solid quarter new corner 1) 12 799
    ≡ (if inside corner 12 799 then some (1 % 4) else get_pixel new 12 799)
get_pixel-fill_solid_example =
    get_pixel-fill_solid quarter new corner 1 12 799 new-IsFrame (omega arith) (omega arith)
      (omega arith)

draw_image-covers_example : get_pixel (draw_image checks 240 400 1 new) 234 399 ≡ (
    if covers checks (240 - 12 * 1 / 2) (400 - 2 * 1 / 2) 1 0 2 234 399
    then some 0
    else get_pixel new 234 399)
draw_image-covers_example =
    draw_image-covers checks 240 400 1 new 234 399 new-IsFrame checks-IsImage (omega arith)
      (omega arith) (omega arith) (omega arith)
