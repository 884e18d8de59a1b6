-- ===== src/Plate/Ndef/Write.antt =====
-- `to_ndef` and its helpers of app/plate.rs: the message that the emulated tag serves.
use paper_name_plate.Base.{
  ℕ, zero, suc, ◌+◌, ◌%◌, List, [], ◌∷◌, ◌++◌, Bool, true, false, not, ◌||◌,
}
use paper_name_plate.Base.{Option, none, some, bit_or, bit_and, ltb, leb, ◌==◌, if◌then◌else◌}
use paper_name_plate.Base.{length, get_or, set}
use paper_name_plate.Base.Bytes.{u32_be_bytes}
use paper_name_plate.Text.Utf8.{Str, as_bytes}
use paper_name_plate.Plate.Image.{MonoImage, encode}
use paper_name_plate.Plate.Content.{PlateContent}
use paper_name_plate.Plate.Ndef.Record.{record_at}

-- `IMAGE_MIME`: "image/x-plate"
abbrev pub image_mime : List ℕ
image_mime =
    b'i' ∷ b'm' ∷ b'a' ∷ b'g' ∷ b'e' ∷ b'/' ∷ b'x' ∷ b'-' ∷ b'p' ∷ b'l' ∷ b'a' ∷ b't' ∷ b'e' ∷ []

abbrev pub is_empty : Str → Bool
is_empty [] = true
is_empty (c ∷ s) = false

unfoldable pub text_payload : PlateContent → List ℕ
text_payload c =
    as_bytes c.name
    ++ (0x0A
        ∷ (as_bytes c.email
            ++ (0x0A ∷ (as_bytes c.github ++ (0x0A ∷ (as_bytes c.x ++ (0x0A ∷ as_bytes c.note)))))))

-- The URI record, if there is a link: it is first, and `n_records` is 2.
unfoldable pub uri_record : Str → List ℕ
uri_record url =
    let n_records = 1 + (if is_empty url then 0 else 1) in
    let hdr = bit_or 0x11 0x80 in
    if is_empty url
    then []
    else (if n_records == 1 then bit_or hdr 0x40 else hdr)
      ∷ 0x01
      ∷ (length (as_bytes url) + 1) % 256
      ∷ b'U'
      ∷ 0x04
      ∷ as_bytes url

abbrev pub text_header : Bool → Bool → ℕ
text_header first last =
    let hdr = if last then bit_or 0x11 0x40 else 0x11 in if first then bit_or hdr 0x80 else hdr

unfoldable pub text_record : Bool → Bool → List ℕ → List ℕ
text_record first last text =
    text_header first last ∷ 0x01 ∷ (length text + 3) % 256 ∷ b'T' ∷ 0x02 ∷ b'e' ∷ b'n' ∷ text

-- A payload of 256 bytes or more clears the short-record flag: `msg[idx] &= !0x10`.
unfoldable pub image_record : MonoImage → List ℕ
image_record img =
    let payload = encode img in
    let hdr = bit_or 0x12 0x40 in
    if ltb (length payload) 256
    then hdr ∷ length image_mime ∷ length payload % 256 ∷ (image_mime ++ payload)
    else bit_and hdr 0xEF
      ∷ length image_mime
      ∷ (u32_be_bytes (length payload) ++ (image_mime ++ payload))

-- The loop of `fix_me_flag`: the offset of the last record header, from `i` on. `last` is the answer
-- if the message ends at `i`.
unfoldable pub last_header : ℕ → List ℕ → ℕ → Option ℕ → Option ℕ
last_header zero msg i last = last
last_header (suc fuel) msg i last =
    let rest = λ (next : ℕ). last_header fuel msg next (some i) in
    if leb (length msg) i then last else elim (record_at msg i) [
      | none ↦ some i
      | some r ↦ if leb r.next i || leb (length msg) r.next then some i else rest r.next
    ]

unfoldable pub fix_me_flag : List ℕ → List ℕ
unfolding last_header
fix_me_flag msg = elim (last_header (length msg) msg 0 none) [
  | none ↦ msg
  | some h ↦ set msg h (bit_or (get_or msg h 0) 0x40)
]

abbrev pub has_image : Option MonoImage → Bool
has_image none = false
has_image (some img) = true

-- The URI record and the text record, in which the text ends the message if there is no image.
unfoldable pub text_records : PlateContent → List ℕ
unfolding uri_record text_record text_payload
text_records c =
    uri_record c.url ++ text_record (is_empty c.url) (not (has_image c.image)) (text_payload c)

unfoldable pub to_ndef : PlateContent → List ℕ
unfolding text_records fix_me_flag image_record
to_ndef c =
    let msg = text_records c in
    elim c.image [
      | none ↦ msg
      | some img ↦
          if ltb 700 (4 + length img.bits) then fix_me_flag msg else msg ++ image_record img
    ]
