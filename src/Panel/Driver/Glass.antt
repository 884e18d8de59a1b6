-- ===== src/Panel/Driver/Glass.antt =====
-- `apply_mono_region` of ssd1677/framebuffer.rs and the rows of `refresh_fastest` of ssd1677/mod.rs, on
-- the same region.
use paper_name_plate.Base.{
  ℕ, ◌+◌, ◌-◌, ◌*◌, min, ◌≤◌, ◌<◌, ◌≡◌, sym, ap, ap₂, ◌∙◌, arith, List, Bool, ◌&&◌,
}
use paper_name_plate.Base.{leb, ltb, if◌then◌else◌, length, get_or}
use paper_name_plate.Panel.FrameBuffer.{FrameBuffer}
use paper_name_plate.Panel.FrameBuffer.Regions.{
  region_span, copy_rows, apply_mono_region, copy_rows-at,
}
use paper_name_plate.Panel.Driver.{byte_span}
use paper_name_plate.Panel.Driver.Refresh.{bw_row, row_at}
use paper_name_plate.Panel.Driver.Spans.{seven, byte_span-covers}
use paper_name_plate.Panel.Driver.Classes.{patched-at, get_or-row_at, length-row_at}

-- Both compute the same bytes of a row.
spans-eq : (x0 w : ℕ) → 1 ≤ w → x0 + w ≤ 800 → byte_span x0 w ≡ region_span x0 w
unfolding byte_span region_span
spans-eq x0 w h k =
    let e = seven (x0 + w - 1) (omega arith) in ap₂ (λ a b. (a, b)) (omega arith) (omega (arith, e))

-- The rows of a region, by their number and by the last.
rows-eq :
    (y0 bottom r : ℕ) (column : Bool) (u v : ℕ)
    → y0 ≤ bottom
    → (if (leb y0 r && ltb r (y0 + (bottom + 1 - y0))) && column then u else v)
      ≡ (if (leb y0 r && leb r bottom) && column then u else v)
rows-eq y0 bottom r column u v h = ground arith

-- If a region of one pixel at least lies within the panel, then `apply_mono_region` leaves in every
-- byte of the MSB plane what the row `bw_row` has there, for the same region and the same planes, each
-- of 480 rows of 100 bytes.
pub apply_mono_region-bw_row :
    (mono : List ℕ) (fb : FrameBuffer) (x0 w y0 h r c : ℕ)
    → 1 ≤ w
    → x0 + w ≤ 800
    → 1 ≤ h
    → y0 + h ≤ 480
    → length mono ≡ 48000
    → length fb.msb ≡ 48000
    → r < 480
    → c < 100
    → get_or (apply_mono_region mono x0 w y0 h fb).msb (r * 100 + c) 0
      ≡ get_or
          (bw_row mono fb.msb (byte_span x0 w).0 (byte_span x0 w).1 y0 (min (y0 + h - 1) 479) r)
          c
          0
unfolding apply_mono_region bw_row
apply_mono_region-bw_row mono fb x0 w y0 h r c wide right high low hm hp hr hc =
    let s = spans-eq x0 w wide right in
    let bottom = min (y0 + h - 1) 479 in
    let (first, n) = byte_span x0 w in
    let fits : first + n ≤ 100 = (byte_span-covers x0 w wide right).4 in
    let column = leb first c && ltb c (first + n) in
    let u = get_or mono (r * 100 + c) 0 in
    let v = get_or fb.msb (r * 100 + c) 0 in
    ap (λ q. get_or (copy_rows q.0 q.1 (bottom + 1 - y0) y0 mono fb.msb) (r * 100 + c) 0) (sym s)
    ∙ copy_rows-at first n (bottom + 1 - y0) y0 mono fb.msb r c fits hc (omega arith) hm hp
    ∙ rows-eq y0 bottom r column u v (omega arith)
    ∙ sym (
        patched-at (leb y0 r && leb r bottom) first n (row_at fb.msb r) (row_at mono r) c
          (omega (arith, length-row_at fb.msb r hp hr))
          (length-row_at mono r hm hr ∙ sym (length-row_at fb.msb r hp hr))
        ∙ ap₂ (λ a b. if (leb y0 r && leb r bottom) && column then a else b)
            (get_or-row_at mono r c hc) (get_or-row_at fb.msb r c hc))
