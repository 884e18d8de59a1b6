-- ===== src/Plate/Image.antt =====
-- `MonoImage` of app/plate.rs: a 1-bpp image and its encoding `[w u16 LE][h u16 LE][rows]`.
pub mod Codec
use paper_name_plate.Base.{ℕ, ◌+◌, ◌*◌, ◌/◌, ◌≤◌, ◌<◌, ◌≡◌, List, [], ◌∷◌, ◌++◌, ◌||◌}
use paper_name_plate.Base.{Option, none, some, ltb, ◌==◌, if◌then◌else◌}
use paper_name_plate.Base.{length, get_or, take, drop, get_range?}
use paper_name_plate.Base.Bytes.{u16_le, u16_le_bytes}

pub record MonoImage : Type 0 where
  pub width : ℕ
  pub height : ℕ
  pub bits : List ℕ

-- `w.div_ceil(8)`
abbrev pub row_bytes_of : ℕ → ℕ
row_bytes_of w = (w + 7) / 8

abbrev pub row_bytes : MonoImage → ℕ
row_bytes i = row_bytes_of i.width

-- The reads below index 0..3, behind the length test.
abbrev pub payload_width : List ℕ → ℕ
payload_width p = u16_le (get_or p 0 0) (get_or p 1 0)

abbrev pub payload_height : List ℕ → ℕ
payload_height p = u16_le (get_or p 2 0) (get_or p 3 0)

unfoldable pub decode : List ℕ → Option MonoImage
decode payload =
    let width = payload_width payload in
    let height = payload_height payload in
    if ltb (length payload) 4
    then none
    else if width == 0 || (height == 0 || (ltb 480 width || ltb 800 height))
    then none
    else elim (get_range? payload 4 (row_bytes_of width * height)) [
      | none ↦ none
      | some bits ↦ some (record { width = width; height = height; bits = bits })
    ]

-- `payload.drain(..4); payload.truncate(need)` reuses the allocation.
unfoldable pub decode_owned : List ℕ → Option MonoImage
decode_owned payload =
    let width = payload_width payload in
    let height = payload_height payload in
    let need = row_bytes_of width * height in
    if ltb (length payload) 4
    then none
    else if width == 0 || (height == 0 || (ltb 480 width || ltb 800 height))
    then none
    else if ltb (length payload) (4 + need)
    then none
    else some (record { width = width; height = height; bits = take need (drop 4 payload) })

unfoldable pub encode : MonoImage → List ℕ
encode i = u16_le_bytes i.width ++ (u16_le_bytes i.height ++ i.bits)
