-- ===== src/Panel/Driver/Classes.antt =====
-- The rows that `refresh_fastest` of ssd1677/mod.rs builds, by pixels.
use paper_name_plate.Base.{
  ℕ, zero, suc, ◌+◌, ◌-◌, ◌*◌, min, max, ◌≤◌, ◌<◌, ◌≡◌, refl, ap, ap₂, ◌∙◌, arith,
}
use paper_name_plate.Base.{
  List, [], ◌∷◌, ◌++◌, Bool, true, false, ◌&&◌, bit_and, bit_or, leb, ltb, ◌==◌, if◌then◌else◌,
}
use paper_name_plate.Base.{
  get_or-take, get_or-drop, length, get_or, take, drop, length-take, length-drop,
}
use paper_name_plate.Base.Digits.{bit_at, bit_at-le_one, bit_at-and, bit_at-or, bit_at-not}
use paper_name_plate.Panel.Driver.Refresh.{patched, class_byte, class_row, row_at, bw_row, red_row}

pub get_or-row_at :
    (plane : List ℕ) (y b : ℕ)
    → b < 100
    → get_or (row_at plane y) b 0 ≡ get_or plane (y * 100 + b) 0
get_or-row_at plane y b h =
    get_or-take 100 (drop (y * 100) plane) b 0 h ∙ get_or-drop (y * 100) plane b 0

pub length-row_at :
    (plane : List ℕ) (y : ℕ) → length plane ≡ 48000 → y < 480 → length (row_at plane y) ≡ 100
length-row_at plane y h k =
    omega (arith, length-take 100 (drop (y * 100) plane), length-drop (y * 100) plane)

get_or-start :
    (n : ℕ) (xs ys : List ℕ) (b : ℕ)
    → n ≤ length xs
    → length ys ≡ length xs
    → get_or (take n ys ++ drop n xs) b 0 ≡ (if ltb b n then get_or ys b 0 else get_or xs b 0)
get_or-start zero xs ys b h k = ground arith
get_or-start (suc n) [] ys b h k = absurd (omega arith)
get_or-start (suc n) (x ∷ xs) [] b h k = absurd (omega arith)
get_or-start (suc n) (x ∷ xs) (y ∷ ys) zero h k = ground arith
get_or-start (suc n) (x ∷ xs) (y ∷ ys) (suc b) h k =
    get_or-start n xs ys b (omega arith) (omega arith) ∙ ground arith

get_or-patched :
    (first n : ℕ) (xs ys : List ℕ) (b : ℕ)
    → first + n ≤ length xs
    → length ys ≡ length xs
    → get_or (patched first n xs ys) b 0
      ≡ (if leb first b && ltb b (first + n) then get_or ys b 0 else get_or xs b 0)
get_or-patched zero n xs ys b h k = get_or-start n xs ys b (omega arith) k ∙ ground arith
get_or-patched (suc first) n [] ys b h k = absurd (omega arith)
get_or-patched (suc first) n (x ∷ xs) [] b h k = absurd (omega arith)
get_or-patched (suc first) n (x ∷ xs) (y ∷ ys) zero h k = ground arith
get_or-patched (suc first) n (x ∷ xs) (y ∷ ys) (suc b) h k =
    get_or-patched first n xs ys b (omega arith) (omega arith) ∙ ground arith

pub length-class_row :
    (ns ls ms : List ℕ)
    → length ls ≡ length ns
    → length ms ≡ length ns
    → length (class_row ns ls ms) ≡ length ns
length-class_row [] ls ms h k = refl
length-class_row (n ∷ ns) [] ms h k = absurd (omega arith)
length-class_row (n ∷ ns) (l ∷ ls) [] h k = absurd (omega arith)
length-class_row (n ∷ ns) (l ∷ ls) (m ∷ ms) h k =
    ap suc (length-class_row ns ls ms (omega arith) (omega arith))

get_or-class_row :
    (ns ls ms : List ℕ) (b : ℕ)
    → length ls ≡ length ns
    → length ms ≡ length ns
    → b < length ns
    → get_or (class_row ns ls ms) b 0 ≡ class_byte (get_or ns b 0) (get_or ls b 0) (get_or ms b 0)
get_or-class_row [] ls ms b h k l = absurd (omega arith)
get_or-class_row (n ∷ ns) [] ms b h k l = absurd (omega arith)
get_or-class_row (n ∷ ns) (l ∷ ls) [] b h k lt = absurd (omega arith)
get_or-class_row (n ∷ ns) (l ∷ ls) (m ∷ ms) zero h k lt = refl
get_or-class_row (n ∷ ns) (l ∷ ls) (m ∷ ms) (suc b) h k lt =
    get_or-class_row ns ls ms b (omega arith) (omega arith) (omega arith)

-- A pixel that becomes white is driven from the lower of its two old bits, one that becomes black
-- from the higher.
abbrev pub class_of : (new lsb msb : ℕ) → ℕ
class_of new lsb msb = if new == 1 then min lsb msb else max lsb msb

bit_at-class_byte :
    (n l m i : ℕ)
    → n < 256
    → i < 8
    → bit_at i (class_byte n l m) ≡ class_of (bit_at i n) (bit_at i l) (bit_at i m)
bit_at-class_byte n l m i h k =
    let flipped : bit_at i (255 - n) ≡ 1 - bit_at i n = bit_at-not 8 i n h k in
    bit_at-or i (bit_and n (bit_and l m)) (bit_and (255 - n) (bit_or l m))
    ∙ ap₂ max (bit_at-and i n (bit_and l m) ∙ ap (min (bit_at i n)) (bit_at-and i l m))
        (bit_at-and i (255 - n) (bit_or l m) ∙ ap₂ min flipped (bit_at-or i l m))
    ∙ ground (arith, bit_at-le_one i n, bit_at-le_one i l, bit_at-le_one i m)

-- The pixel is in the window.
abbrev pub in_window : (first n top bottom y b : ℕ) → Bool
in_window first n top bottom y b = (leb top y && leb y bottom) && (leb first b && ltb b (first + n))

-- Behind the choice of the rows that are patched.
pub patched-at :
    (inside : Bool) (first n : ℕ) (xs ys : List ℕ) (b : ℕ)
    → first + n ≤ length xs
    → length ys ≡ length xs
    → get_or (if inside then patched first n xs ys else xs) b 0
      ≡ (if inside && (leb first b && ltb b (first + n)) then get_or ys b 0 else get_or xs b 0)
patched-at true first n xs ys b h k = get_or-patched first n xs ys b h k
patched-at false first n xs ys b h k = refl

bit_at-if :
    (inside : Bool) (i u v : ℕ)
    → bit_at i (if inside then u else v) ≡ (if inside then bit_at i u else bit_at i v)
bit_at-if true i u v = refl
bit_at-if false i u v = refl

module _ (new old_lsb old_msb : List ℕ) (new_whole : length new ≡ 48000)
    (lsb_whole : length old_lsb ≡ 48000) (msb_whole : length old_msb ≡ 48000)
    (first n top bottom y b i : ℕ) (fits : first + n ≤ 100) (row : y < 480) (column : b < 100)
    (bit : i < 8) where
  -- The pixel in a plane.
  abbrev pixel : List ℕ → ℕ
  pixel plane = bit_at i (get_or plane (y * 100 + b) 0)

  bw_pixel :
      bit_at i (get_or (bw_row new old_msb first n top bottom y) b 0)
      ≡ (if in_window first n top bottom y b then pixel new else pixel old_msb)
  unfolding bw_row
  bw_pixel =
      let new_row = length-row_at new y new_whole row in
      let old_row = length-row_at old_msb y msb_whole row in
      let e =
        patched-at (leb top y && leb y bottom) first n (row_at old_msb y) (row_at new y) b
          (omega arith) (omega arith) in
      let inside = in_window first n top bottom y b in
      ap (bit_at i) e
      ∙ bit_at-if inside i (get_or (row_at new y) b 0) (get_or (row_at old_msb y) b 0)
      ∙ ap₂ (λ u v. if inside then bit_at i u else bit_at i v) (get_or-row_at new y b column)
          (get_or-row_at old_msb y b column)

  red_pixel :
      get_or new (y * 100 + b) 0 < 256
      → bit_at i (get_or (red_row new old_lsb old_msb first n top bottom y) b 0) ≡ (
          if in_window first n top bottom y b
          then class_of (pixel new) (pixel old_lsb) (pixel old_msb)
          else pixel old_msb)
  unfolding red_row
  red_pixel byte =
      let new_row = length-row_at new y new_whole row in
      let lsb_row = length-row_at old_lsb y lsb_whole row in
      let msb_row = length-row_at old_msb y msb_whole row in
      let ns = row_at new y in
      let ls = row_at old_lsb y in
      let ms = row_at old_msb y in
      let whole = length-class_row ns ls ms (omega arith) (omega arith) in
      let e =
        patched-at (leb top y && leb y bottom) first n ms (class_row ns ls ms) b (omega arith)
          (omega arith) in
      let inside = in_window first n top bottom y b in
      let here = get_or-class_row ns ls ms b (omega arith) (omega arith) (omega arith) in
      let at_new = get_or-row_at new y b column in
      let small : get_or ns b 0 < 256 = omega (arith, at_new, byte) in
      ap (bit_at i) e
      ∙ bit_at-if inside i (get_or (class_row ns ls ms) b 0) (get_or ms b 0)
      ∙ ap₂ (λ u v. if inside then u else v)
          (ap (bit_at i) here
            ∙ bit_at-class_byte (get_or ns b 0) (get_or ls b 0) (get_or ms b 0) i small bit
            ∙ ap₂ (λ u v. class_of (bit_at i u) (bit_at i v) (bit_at i (get_or ms b 0))) at_new
                (get_or-row_at old_lsb y b column)
            ∙ ap (λ v. class_of (pixel new) (pixel old_lsb) (bit_at i v))
                (get_or-row_at old_msb y b column))
          (ap (bit_at i) (get_or-row_at old_msb y b column))

  -- Of planes of 480 rows of 100 bytes, the rows `bw_row` and `red_row` have for each pixel of their
  -- window the new value and the class of its transition, and for each other pixel twice its old value.
  pub fastest_pixels :
      get_or new (y * 100 + b) 0 < 256
      → (bit_at i (get_or (bw_row new old_msb first n top bottom y) b 0)
          ≡ (if in_window first n top bottom y b then pixel new else pixel old_msb))
        × (bit_at i (get_or (red_row new old_lsb old_msb first n top bottom y) b 0) ≡ (
            if in_window first n top bottom y b
            then class_of (pixel new) (pixel old_lsb) (pixel old_msb)
            else pixel old_msb))
  fastest_pixels byte = (bw_pixel, red_pixel byte)
