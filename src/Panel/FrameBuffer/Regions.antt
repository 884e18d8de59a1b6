-- ===== src/Panel/FrameBuffer/Regions.antt =====
-- Regions of the frame buffer: `apply_mono_region` and `native_region` in ssd1677/framebuffer.rs.
use paper_name_plate.Base.{
  ℕ, zero, suc, ◌+◌, ◌-◌, ◌*◌, ◌/◌, min, ◌≤◌, ◌<◌, ◌≡◌, ◌⊎◌, inl, inr, sym, ap, ◌∙◌, arith,
}
use paper_name_plate.Base.{
  List, Bool, ◌&&◌, bit_or, leb, ltb, if◌then◌else◌, length, get_or, take, drop, write_at,
}
use paper_name_plate.Base.{length-take, length-drop, length-write_at, get_or-take, get_or-drop}
use paper_name_plate.Base.{get_or-write_at_out, get_or-write_at_in, Bool-cases}
use paper_name_plate.Panel.FrameBuffer.{FrameBuffer, row_bytes, width, height}

-- The first byte of a row that a region touches, and how many, for a region within the panel.
unfoldable pub region_span : ℕ → ℕ → ℕ × ℕ
region_span x0 w =
    let first = x0 / 8 * 8 / 8 in
    let last = min (bit_or (x0 + w - 1) 7) (height - 1) / 8 in (first, last + 1 - first)

-- The rows from `y` on, `k` of them: `n` bytes of each, from its byte `first` on, are those of `mono`.
unfoldable pub copy_rows : (first n k y : ℕ) → (mono plane : List ℕ) → List ℕ
copy_rows first n zero y mono plane = plane
copy_rows first n (suc k) y mono plane =
    let i = y * row_bytes + first in
    copy_rows first n k (y + 1) mono (write_at plane i (take n (drop i mono)))

unfoldable pub apply_mono_region : List ℕ → (x0 w y0 h : ℕ) → FrameBuffer → FrameBuffer
unfolding region_span copy_rows
apply_mono_region mono x0 w y0 h fb =
    let (first, n) = region_span x0 w in
    let count = min (y0 + h - 1) (width - 1) + 1 - y0 in
    record fb {
      lsb = copy_rows first n count y0 mono fb.lsb;
      msb = copy_rows first n count y0 mono fb.msb;
    }

-- The region of a rectangle: its columns of bits and its rows in the memory, without flips.
unfoldable pub native_region : ℕ → ℕ → ℕ → ℕ → ℕ × ℕ × ℕ × ℕ
native_region x y w h =
    let x' = min x (width - 1) in
    let y' = min y (height - 1) in (y', min h (height - y'), x', min w (width - x'))

-- Byte `c` of row `r` behind the copying of one row.
copy_row-at :
    (first n y : ℕ) (mono plane : List ℕ) (r c : ℕ)
    → first + n ≤ 100
    → c < 100
    → y < 480
    → length mono ≡ 48000
    → length plane ≡ 48000
    → get_or
        (write_at plane (y * 100 + first) (take n (drop (y * 100 + first) mono)))
        (r * 100 + c)
        0
      ≡ (if (leb y r && ltb r (y + 1)) && (leb first c && ltb c (first + n))
          then get_or mono (r * 100 + c) 0
          else get_or plane (r * 100 + c) 0)
copy_row-at first n y mono plane r c fits hc hy hm hp =
    let i = y * 100 + first in
    let ws = take n (drop i mono) in
    let len : length ws ≡ n = omega (arith, length-take n (drop i mono), length-drop i mono) in
    elim (Bool-cases ((leb y r && ltb r (y + 1)) && (leb first c && ltb c (first + n)))) [
      | inl e ↦
          let row : r ≡ y = ground (arith, e) in
          let low : first ≤ c = ground (arith, e) in
          let high : c < first + n = ground (arith, e) in
          let j : r * 100 + c ≡ i + (c - first) = omega arith in
          rw e (
            ap (λ t. get_or (write_at plane i ws) t 0) j
            ∙ get_or-write_at_in ws plane i (c - first) 0 (omega arith) (omega arith)
            ∙ get_or-take n (drop i mono) (c - first) 0 (omega arith)
            ∙ get_or-drop i mono (c - first) 0
            ∙ ap (λ t. get_or mono t 0) (sym j))
      | inr e ↦
          let out : (r * 100 + c < i) ⊎ (i + length ws ≤ r * 100 + c) = ground (arith, e, len) in
          rw e (get_or-write_at_out ws plane i (r * 100 + c) 0 out)
    ]

-- The first row and the rows behind it.
merge_rows :
    (y k r : ℕ) (column : Bool) (u v : ℕ)
    → (if (leb (y + 1) r && ltb r (y + 1 + k)) && column
        then u
        else (if (leb y r && ltb r (y + 1)) && column then u else v))
      ≡ (if (leb y r && ltb r (y + suc k)) && column then u else v)
merge_rows y k r column u v = ground arith

-- A byte behind a copy of rows is that of `mono` in the region, and as it was elsewhere.
pub copy_rows-at :
    (first n k y : ℕ) (mono plane : List ℕ) (r c : ℕ)
    → first + n ≤ 100
    → c < 100
    → y + k ≤ 480
    → length mono ≡ 48000
    → length plane ≡ 48000
    → get_or (copy_rows first n k y mono plane) (r * 100 + c) 0 ≡ (
        if (leb y r && ltb r (y + k)) && (leb first c && ltb c (first + n))
        then get_or mono (r * 100 + c) 0
        else get_or plane (r * 100 + c) 0)
unfolding copy_rows
copy_rows-at first n zero y mono plane r c fits hc hy hm hp = ground arith
copy_rows-at first n (suc k) y mono plane r c fits hc hy hm hp =
    let i = y * 100 + first in
    let ws = take n (drop i mono) in
    let rest =
      copy_rows-at first n k (y + 1) mono (write_at plane i ws) r c fits hc (omega arith) hm
        (length-write_at ws plane i ∙ hp) in
    let here = copy_row-at first n y mono plane r c fits hc (omega arith) hm hp in
    rest
    ∙ ap
        (λ v.
          if (leb (y + 1) r && ltb r (y + 1 + k)) && (leb first c && ltb c (first + n))
          then get_or mono (r * 100 + c) 0
          else v)
        here
    ∙ merge_rows y k r (leb first c && ltb c (first + n)) (get_or mono (r * 100 + c) 0)
        (get_or plane (r * 100 + c) 0)
