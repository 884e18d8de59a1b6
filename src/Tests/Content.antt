-- ===== src/Tests/Content.antt =====
-- The content of the plate: its image, its text and its NDEF message.
use paper_name_plate.Base.{ℕ, ◌≡◌, ◌≢◌, refl, arith, List, [], ◌∷◌, ◌++◌, none, some}
use paper_name_plate.Text.Utf8.{Str, from_utf8_lossy}
use paper_name_plate.Plate.Image.{decode, encode}
use paper_name_plate.Plate.Image.Codec.{decode-encode}
use paper_name_plate.Plate.Content.{PlateContent, empty_content}
use paper_name_plate.Plate.Plain.{accepted, to_plain, apply_plain}
use paper_name_plate.Plate.Plain.Limits.{Fits}
use paper_name_plate.Plate.Plain.RoundTrip.{IsPlain, apply_plain-to_plain}
use paper_name_plate.Plate.Ndef.Record.{
  record_at, record_fields, payload_length, skip_id, record_body,
}
use paper_name_plate.Text.Utf8.{as_bytes, encode_char}
use paper_name_plate.Text.Trim.{is_whitespace}
use paper_name_plate.Text.Split.{lines}
use paper_name_plate.Plate.Ndef.Read.{apply_record, apply_text_record, apply_ndef, apply_ndef-ends}
use paper_name_plate.Reader.First.{first_record, without_next, first_record-eq-record_at}
use paper_name_plate.Plate.Ndef.Write.{to_ndef}
use paper_name_plate.Plate.Ndef.Lines.{IsSent}
use paper_name_plate.Plate.Ndef.RoundTrip.{received, apply_ndef-to_ndef}
use paper_name_plate.Tests.Data.{checks, checks-IsImage}

decode-encode_example : decode (encode checks ++ (0 ∷ [])) ≡ some checks
decode-encode_example = decode-encode checks (0 ∷ []) checks-IsImage

-- The image that a payload of one row of 8 pixels gives.
abbrev row : List ℕ
row = 8 ∷ 0 ∷ 1 ∷ 0 ∷ 0x3C ∷ []

decode-row : decode row ≡ some (record { width = 8; height = 1; bits = 0x3C ∷ [] })
unfolding decode
decode-row = refl

abbrev card : PlateContent
card = record {
  name = b'A' ∷ b' ' ∷ b'B' ∷ [];
  email = b'a' ∷ b'@' ∷ b'b' ∷ [];
  github = b'c' ∷ [];
  x = [];
  note = b'd' ∷ [];
  url = b'e' ∷ b'.' ∷ b'f' ∷ [];
  image = some checks;
}

card-IsPlain : IsPlain card
unfolding is_whitespace
card-IsPlain = record {
  name = record { one_line = ground arith; trimmed = (refl, refl) };
  email = record { one_line = ground arith; trimmed = (refl, refl) };
  github = record { one_line = ground arith; trimmed = (refl, refl) };
  github_bare = refl;
  x = record { one_line = tt; trimmed = (tt, tt) };
  x_bare = tt;
  note = record { one_line = ground arith; trimmed = (refl, refl) };
  url = record { one_line = ground arith; trimmed = (refl, refl) };
  no_https = refl;
  no_http = refl;
}

card-Fits : Fits card
unfolding as_bytes encode_char
card-Fits = record { text = omega arith; link = omega arith }

apply_plain-to_plain_example :
    apply_plain empty_content (to_plain card) ≡ (record card { image = none }, accepted)
apply_plain-to_plain_example = apply_plain-to_plain empty_content card card-IsPlain card-Fits

-- The same without an image.
abbrev pub bare_card : PlateContent
bare_card = record card { image = none }

pub bare_card-IsPlain : IsPlain bare_card
bare_card-IsPlain = record {
  name = card-IsPlain.name;
  email = card-IsPlain.email;
  github = card-IsPlain.github;
  github_bare = card-IsPlain.github_bare;
  x = card-IsPlain.x;
  x_bare = card-IsPlain.x_bare;
  note = card-IsPlain.note;
  url = card-IsPlain.url;
  no_https = card-IsPlain.no_https;
  no_http = card-IsPlain.no_http;
}

pub bare_card-IsSent : IsSent bare_card
bare_card-IsSent = record {
  scalars = ground arith;
  no_semicolon = ground arith;
  link_scalars = ground arith;
}

pub bare_card-Fits : Fits bare_card
bare_card-Fits = record { text = card-Fits.text; link = card-Fits.link }

apply_ndef-to_ndef_example :
    apply_ndef (to_ndef bare_card) empty_content ≡ some (received bare_card empty_content)
apply_ndef-to_ndef_example =
    apply_ndef-to_ndef empty_content bare_card bare_card-IsPlain bare_card-IsSent bare_card-Fits
      refl

abbrev words : Str
words = b'A' ∷ 0x0A ∷ b'B' ∷ []

-- A text record with the text "hi" in English.
abbrev hello : List ℕ
hello = 0xD1 ∷ 0x01 ∷ 0x05 ∷ b'T' ∷ 0x02 ∷ b'e' ∷ b'n' ∷ b'h' ∷ b'i' ∷ []

apply_ndef-ends_example : apply_ndef hello card ≢ none
apply_ndef-ends_example = apply_ndef-ends hello card

hello-name :
    apply_ndef hello card
    ≡ some (record card { name = b'h' ∷ b'i' ∷ []; email = []; github = []; x = []; note = [] })
unfolding apply_ndef record_at record_fields payload_length skip_id record_body apply_record
    apply_text_record lines from_utf8_lossy
hello-name = refl

first_record-eq-record_at_example : first_record hello ≡ without_next (record_at hello 0)
first_record-eq-record_at_example = first_record-eq-record_at hello
