-- ===== src/Plate/Ndef/Read.antt =====
-- `apply_ndef` of app/plate.rs: the content that a message stands for.
use paper_name_plate.Base.{ℕ, zero, suc, ◌+◌, ◌≤◌, ◌<◌, ◌≢◌, arith, List, [], ◌∷◌, ◌++◌, ◌&&◌, ◌||◌}
use paper_name_plate.Base.{
  Option, none, some, Option-cases, inl, inr, bit_and, leb, ◌==◌, if◌then◌else◌,
}
use paper_name_plate.Base.{length, get_or, take, drop, drop?, bytes_eq}
use paper_name_plate.Text.Utf8.{Str, from_utf8_lossy}
use paper_name_plate.Text.Trim.{replace_char}
use paper_name_plate.Text.Split.{lines}
use paper_name_plate.Plate.Image.{decode}
use paper_name_plate.Plate.Content.{PlateContent}
use paper_name_plate.Plate.Plain.{strip_at, strip_scheme}
use paper_name_plate.Plate.Base64.{b64_decode}
use paper_name_plate.Plate.Ndef.Record.{NdefRecord, record_at}
use paper_name_plate.Plate.Ndef.Write.{image_mime}
use paper_name_plate.Reader.Uri.{uri_prefix}

-- The lines of a text; `;` stands for a line break too.
unfoldable pub apply_text : Str → PlateContent → PlateContent
apply_text text c =
    let ls = lines (replace_char b';' 0x0A text) in
    record c {
      name = get_or ls 0 [];
      email = get_or ls 1 [];
      github = strip_at (get_or ls 2 []);
      x = strip_at (get_or ls 3 []);
      note = get_or ls 4 [];
    }

-- A text record: `lang_len` in the low six bits of the first byte, then the language, then the text.
unfoldable pub apply_text_record : List ℕ → PlateContent → PlateContent
unfolding apply_text
apply_text_record payload c = elim (drop? payload (1 + bit_and (get_or payload 0 0) 0x3F)) [
  | none ↦ c
  | some text ↦ apply_text (from_utf8_lossy text) c
]

-- The image is raw, or in base64 behind `B64:`.
unfoldable pub raw_image : List ℕ → Option (List ℕ)
raw_image payload =
    if bytes_eq (take 4 payload) (b'B' ∷ b'6' ∷ b'4' ∷ b':' ∷ [])
    then b64_decode (drop 4 payload)
    else some payload

unfoldable pub apply_image_record : List ℕ → PlateContent → PlateContent
unfolding raw_image
apply_image_record payload c = elim (raw_image payload) [
  | none ↦ c
  | some raw ↦ elim (decode raw) [ none ↦ c | some img ↦ record c { image = some img } ]
]

unfoldable pub apply_uri_record : List ℕ → PlateContent → PlateContent
apply_uri_record [] c = c
apply_uri_record (prefix ∷ rest) c = record c {
  url = strip_scheme (uri_prefix prefix ++ from_utf8_lossy rest);
}

unfoldable pub apply_record : NdefRecord → PlateContent → PlateContent
apply_record r c =
    if r.tnf == 1 && bytes_eq r.rtype (b'T' ∷ [])
    then apply_text_record r.payload c
    else if r.tnf == 2 && bytes_eq r.rtype image_mime
    then apply_image_record r.payload c
    else if r.tnf == 1 && bytes_eq r.rtype (b'U' ∷ [])
    then apply_uri_record r.payload c
    else c

-- The loop from offset `i` on; `none` is no result of the code but the end of the fuel.
unfoldable pub apply_from : ℕ → List ℕ → ℕ → PlateContent → Option PlateContent
apply_from zero msg i c = none
apply_from (suc fuel) msg i c =
    let rest = λ (next : ℕ) (d : PlateContent). apply_from fuel msg next d in
    elim (record_at msg i) [
      | none ↦ some c
      | some r ↦
          if leb r.next i || leb (length msg) r.next
          then some (apply_record r c)
          else rest r.next (apply_record r c)
    ]

-- Each round passes a byte at least.
unfoldable pub apply_ndef : List ℕ → PlateContent → Option PlateContent
unfolding apply_from
apply_ndef msg c = apply_from (suc (length msg)) msg 0 c

apply_from-ends :
    (fuel : ℕ) (msg : List ℕ) (i : ℕ) (c : PlateContent)
    → i ≤ length msg
    → length msg < i + fuel
    → apply_from fuel msg i c ≢ none
unfolding apply_from
apply_from-ends zero msg i c p h = absurd (omega arith)
apply_from-ends (suc fuel) msg i c p h = elim (Option-cases (record_at msg i)) [
  | inl e ↦ ground arith
  | inr (r, e) ↦ ground (arith, apply_from-ends fuel msg r.next (apply_record r c))
]

-- `apply_ndef` ends on every message, well formed or not.
pub apply_ndef-ends : (msg : List ℕ) (c : PlateContent) → apply_ndef msg c ≢ none
unfolding apply_ndef
apply_ndef-ends msg c = apply_from-ends (suc (length msg)) msg 0 c (omega arith) (omega arith)
