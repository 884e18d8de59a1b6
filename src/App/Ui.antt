-- ===== src/App/Ui.antt =====
-- app/ui.rs: the panel that shows the last tag. The text is set by embedded_graphics.
use paper_name_plate.Base.{
  ℕ, zero, suc, ◌+◌, ◌-◌, ◌*◌, ◌/◌, ◌%◌, List, [], ◌∷◌, ◌++◌, Bool, true, false, not,
}
use paper_name_plate.Base.{
  Option, none, some, bit_and, ltb, ◌==◌, if◌then◌else◌, take, drop, bytes_eq,
}
use paper_name_plate.Base.Int.{ℤ}
use paper_name_plate.Text.Utf8.{Str, as_bytes, from_utf8_lossy}
use paper_name_plate.Base.Results.{Result, ok, err}
use paper_name_plate.Reader.First.{Summary, uri, other, invalid, summarize}
use paper_name_plate.Reader.Type4.{
  Step, select_app, select_cc, read_cc, select_ndef, read_nlen, read_ndef, ReadError, dep, status,
  malformed, out_of_fuel,
}
use paper_name_plate.Plate.Draw.{black, white, rectangle}
use paper_name_plate.Nfc.Poll.{NfcaTag, uid_bytes, is_iso14443_4}
use paper_name_plate.Panel.FrameBuffer.{FrameBuffer, width}
use paper_name_plate.Panel.FrameBuffer.Fill.{Geometry, draw_iter, fill_solid}

-- What embedded_graphics brings: the pixels of a text in one of two fonts, its baseline from a point
-- on, and those of the outline of a rectangle; and its rectangles.
pub record Graphics : Type 0 where
  pub geometry : Geometry
  pub text : (large : Bool) → Str → (x y : ℕ) → (colour : ℕ) → List (ℤ × ℤ × ℕ)
  pub outline : (x y w h : ℕ) → (colour stroke : ℕ) → List (ℤ × ℤ × ℕ)

-- The area of the panel.
abbrev pub panel_x : ℕ
panel_x = 12

abbrev pub panel_y : ℕ
panel_y = 200

abbrev pub panel_w : ℕ
panel_w = width - 24

abbrev pub panel_h : ℕ
panel_h = 380

-- `{:02X}` of a byte and `{:04X}` of a word
abbrev pub hex_digit : ℕ → ℕ
hex_digit d = if ltb d 10 then 48 + d else 55 + d

abbrev pub hex2 : ℕ → Str
hex2 b = hex_digit (b / 16 % 16) ∷ hex_digit (b % 16) ∷ []

abbrev pub hex4 : ℕ → Str
hex4 v = hex2 (v / 256) ++ hex2 (v % 256)

-- `hex`: the bytes, with `:` between them.
unfoldable pub hex : List ℕ → Str
hex [] = []
hex (b ∷ []) = hex2 b
hex (b ∷ c ∷ bs) = hex2 b ++ (b':' ∷ hex (c ∷ bs))

-- `{}` of a number of 32 bits: its decimal digits, in front of `s`.
unfoldable pub decimal_from : ℕ → ℕ → Str → Str
decimal_from zero n s = s
decimal_from (suc fuel) n s =
    let rest = decimal_from fuel (n / 10) ((48 + n % 10) ∷ s) in
    if ltb n 10 then (48 + n % 10) ∷ s else rest

abbrev pub decimal : ℕ → Str
decimal n = decimal_from 10 n []

-- `core::str::from_utf8`: what decoding with replacements gives, if it encodes to the same bytes.
unfoldable pub from_utf8 : List ℕ → Option Str
from_utf8 bs = let s = from_utf8_lossy bs in if bytes_eq (as_bytes s) bs then some s else none

abbrev pub iso_text : Str
iso_text =
    b'I' ∷ b'S' ∷ b'O' ∷ b'1' ∷ b'4' ∷ b'4' ∷ b'4' ∷ b'3' ∷ b'-' ∷ b'4' ∷ b' ' ∷ b'(' ∷ b'D' ∷ b'E'
    ∷ b'S' ∷ b'F' ∷ b'i' ∷ b'r' ∷ b'e' ∷ b'/' ∷ b'p' ∷ b'h' ∷ b'o' ∷ b'n' ∷ b'e' ∷ b')' ∷ []

abbrev pub type2_text : Str
type2_text =
    b'T' ∷ b'y' ∷ b'p' ∷ b'e' ∷ b' ' ∷ b'2' ∷ b' ' ∷ b'(' ∷ b'N' ∷ b'T' ∷ b'A' ∷ b'G' ∷ b'/' ∷ b'U'
    ∷ b'l' ∷ b't' ∷ b'r' ∷ b'a' ∷ b'l' ∷ b'i' ∷ b'g' ∷ b'h' ∷ b't' ∷ b')' ∷ []

abbrev pub classic_text : Str
classic_text =
    b'M' ∷ b'I' ∷ b'F' ∷ b'A' ∷ b'R' ∷ b'E' ∷ b' ' ∷ b'C' ∷ b'l' ∷ b'a' ∷ b's' ∷ b's' ∷ b'i' ∷ b'c'
    ∷ []

abbrev pub nfca_text : Str
nfca_text = b'N' ∷ b'F' ∷ b'C' ∷ b'-' ∷ b'A' ∷ []

abbrev pub blocks_text : Str
blocks_text = b'B' ∷ b'l' ∷ b'o' ∷ b'c' ∷ b'k' ∷ b's' ∷ b' ' ∷ b'0' ∷ b'-' ∷ b'3' ∷ b':' ∷ []

abbrev pub protocol_text : Str
protocol_text =
    b'n' ∷ b'o' ∷ b' ' ∷ b'N' ∷ b'D' ∷ b'E' ∷ b'F' ∷ b' ' ∷ b'(' ∷ b'p' ∷ b'r' ∷ b'o' ∷ b't' ∷ b'o'
    ∷ b'c' ∷ b'o' ∷ b'l' ∷ b' ' ∷ b'e' ∷ b'r' ∷ b'r' ∷ b'o' ∷ b'r' ∷ b')' ∷ []

unfoldable pub kind_of : NfcaTag → Str
kind_of tag =
    if is_iso14443_4 tag
    then iso_text
    else if tag.sak == 0x00
    then type2_text
    else if not (bit_and tag.sak 0x18 == 0)
    then classic_text
    else nfca_text

module _ (gfx : Graphics) where
  open gfx use {geometry, text, outline}

  abbrev put_text : Bool → Str → (x y : ℕ) → FrameBuffer → FrameBuffer
  put_text large s x y fb = draw_iter fb (text large s x y black)

  -- The lines of `draw_tag_detail`: 48 bytes each, `n` lines at most. A chunk that is no text is left
  -- out, with its place.
  unfoldable pub detail_lines : ℕ → List ℕ → (y : ℕ) → FrameBuffer → FrameBuffer
  unfolding from_utf8
  detail_lines zero bytes y fb = fb
  detail_lines (suc n) [] y fb = fb
  detail_lines (suc n) (b ∷ bytes) y fb =
      let chunk = take 48 (b ∷ bytes) in
      let next : FrameBuffer = elim (from_utf8 chunk) [
        | none ↦ fb
        | some s ↦ put_text false s 24 y fb
      ] in
      detail_lines n (drop 48 (b ∷ bytes)) (y + 22) next

  unfoldable pub draw_tag_detail : Str → FrameBuffer → FrameBuffer
  unfolding detail_lines
  draw_tag_detail s fb = detail_lines 5 (as_bytes s) 364 fb

  -- The blocks of a tag of type 2, four bytes to a line.
  unfoldable pub block_lines : ℕ → (i : ℕ) → List ℕ → FrameBuffer → FrameBuffer
  unfolding hex decimal_from
  block_lines zero i bytes fb = fb
  block_lines (suc n) i bytes fb =
      block_lines n (i + 1) (drop 4 bytes)
        (put_text false (decimal i ++ (b':' ∷ b' ' ∷ hex (take 4 bytes))) 40 (388 + i * 22) fb)

  abbrev draw_blocks : Option (List ℕ) → FrameBuffer → FrameBuffer
  draw_blocks none fb = fb
  draw_blocks (some d) fb = block_lines 4 0 d (put_text false blocks_text 24 364 fb)

  unfoldable pub draw_tag_panel : NfcaTag → ℕ → Option (List ℕ) → FrameBuffer → FrameBuffer
  unfolding hex decimal_from kind_of block_lines
  draw_tag_panel tag count t2 fb =
      let fb1 = fill_solid geometry fb (rectangle panel_x panel_y panel_w panel_h) white in
      let fb2 = draw_iter fb1 (outline panel_x panel_y panel_w panel_h 1 2) in
      let fb3 = put_text true (b'T' ∷ b'a' ∷ b'g' ∷ b' ' ∷ b'#' ∷ decimal count) 24 236 fb2 in
      let fb4 =
        put_text false (b'U' ∷ b'I' ∷ b'D' ∷ b':' ∷ b' ' ∷ hex (uid_bytes tag)) 24 276 fb3 in
      let fb5 =
        put_text false
          (b'A'
            ∷ b'T'
            ∷ b'Q'
            ∷ b'A'
            ∷ b':'
            ∷ b' '
            ∷ (hex4 tag.atqa ++ (b' ' ∷ b' ' ∷ b'S' ∷ b'A' ∷ b'K' ∷ b':' ∷ b' ' ∷ hex2 tag.sak)))
          24 300 fb4 in
      let fb6 = put_text false (b'T' ∷ b'y' ∷ b'p' ∷ b'e' ∷ b':' ∷ b' ' ∷ kind_of tag) 24 324 fb5 in
      draw_blocks t2 fb6

-- The text that `summarize` of ndef.rs writes.
unfoldable pub print_summary : Summary → Str
unfolding decimal_from
print_summary (uri s) = b'U' ∷ b'R' ∷ b'I' ∷ b':' ∷ b' ' ∷ s
print_summary (Summary.text s) = b'T' ∷ b'e' ∷ b'x' ∷ b't' ∷ b':' ∷ b' ' ∷ s
print_summary (other tnf rtype size) =
    b'T'
    ∷ b'N'
    ∷ b'F'
    ∷ b'='
    ∷ (decimal tnf
        ++ (b' '
            ∷ b't'
            ∷ b'y'
            ∷ b'p'
            ∷ b'e'
            ∷ b'='
            ∷ (rtype ++ (b' ' ∷ b'(' ∷ (decimal size ++ (b'B' ∷ b')' ∷ []))))))
print_summary invalid =
    b'(' ∷ b'e' ∷ b'm' ∷ b'p' ∷ b't' ∷ b'y' ∷ b'/' ∷ b'i' ∷ b'n' ∷ b'v' ∷ b'a' ∷ b'l' ∷ b'i' ∷ b'd'
    ∷ b' ' ∷ b'N' ∷ b'D' ∷ b'E' ∷ b'F' ∷ b')' ∷ []

-- The names of the steps of the reading.
unfoldable pub step_name : Step → Str
step_name select_app = b's' ∷ b'e' ∷ b'l' ∷ b'e' ∷ b'c' ∷ b't' ∷ b'-' ∷ b'a' ∷ b'p' ∷ b'p' ∷ []
step_name select_cc = b's' ∷ b'e' ∷ b'l' ∷ b'e' ∷ b'c' ∷ b't' ∷ b'-' ∷ b'c' ∷ b'c' ∷ []
step_name read_cc = b'r' ∷ b'e' ∷ b'a' ∷ b'd' ∷ b'-' ∷ b'c' ∷ b'c' ∷ []
step_name select_ndef =
    b's' ∷ b'e' ∷ b'l' ∷ b'e' ∷ b'c' ∷ b't' ∷ b'-' ∷ b'n' ∷ b'd' ∷ b'e' ∷ b'f' ∷ []
step_name read_nlen = b'r' ∷ b'e' ∷ b'a' ∷ b'd' ∷ b'-' ∷ b'n' ∷ b'l' ∷ b'e' ∷ b'n' ∷ []
step_name read_ndef = b'r' ∷ b'e' ∷ b'a' ∷ b'd' ∷ b'-' ∷ b'n' ∷ b'd' ∷ b'e' ∷ b'f' ∷ []

-- The line on a tag of type 4, by what the reading of its message gave.
unfoldable pub detail_of : {E : Type 0} → Result (ReadError E) (List ℕ) → Str
unfolding print_summary step_name
detail_of (ok msg) = print_summary (summarize msg)
detail_of (err (status step sw)) =
    b'n'
    ∷ b'o'
    ∷ b' '
    ∷ b'N'
    ∷ b'D'
    ∷ b'E'
    ∷ b'F'
    ∷ b' '
    ∷ b'('
    ∷ (step_name step ++ (b':' ∷ b' ' ∷ b'S' ∷ b'W' ∷ b'=' ∷ (hex4 sw ++ (b')' ∷ []))))
detail_of (err (dep e)) = protocol_text
detail_of (err malformed) = protocol_text
detail_of (err out_of_fuel) = protocol_text
