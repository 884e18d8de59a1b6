-- ===== src/Plate/Content.antt =====
-- `PlateContent` of app/plate.rs: what the plate shows.
use paper_name_plate.Base.{[], ◌∷◌, Option, none}
use paper_name_plate.Text.Utf8.{Str}
use paper_name_plate.Plate.Image.{MonoImage}

pub record PlateContent : Type 0 where
  pub name : Str
  pub email : Str
  pub github : Str
  pub x : Str
  pub note : Str
  pub url : Str
  pub image : Option MonoImage

-- `PlateContent::default()`
abbrev pub empty_content : PlateContent
empty_content = record {
  name = [];
  email = [];
  github = [];
  x = [];
  note = [];
  url = [];
  image = none;
}

-- The link prefixes that `trim_start_matches` takes off: `https://` and `http://`.
abbrev pub https : Str
https = b'h' ∷ b't' ∷ b't' ∷ b'p' ∷ b's' ∷ b':' ∷ b'/' ∷ b'/' ∷ []

abbrev pub http : Str
http = b'h' ∷ b't' ∷ b't' ∷ b'p' ∷ b':' ∷ b'/' ∷ b'/' ∷ []

-- `PlateContent::demo()`, with which the application begins
unfoldable pub demo : PlateContent
demo = record {
  name = b'K' ∷ b'e' ∷ b'n' ∷ b't' ∷ b'a' ∷ b' ' ∷ b'I' ∷ b'D' ∷ b'A' ∷ [];
  email =
      b'k' ∷ b'e' ∷ b'n' ∷ b't' ∷ b'a' ∷ b'@' ∷ b'e' ∷ b'x' ∷ b'a' ∷ b'm' ∷ b'p' ∷ b'l' ∷ b'e'
      ∷ b'.' ∷ b'c' ∷ b'o' ∷ b'm' ∷ [];
  github = b'c' ∷ b'i' ∷ b'n' ∷ b'i' ∷ b'm' ∷ b'l' ∷ [];
  x = b'c' ∷ b'i' ∷ b'n' ∷ b'i' ∷ b'm' ∷ b'l' ∷ [];
  note =
      b'T' ∷ b'a' ∷ b'p' ∷ b' ' ∷ b'y' ∷ b'o' ∷ b'u' ∷ b'r' ∷ b' ' ∷ b'p' ∷ b'h' ∷ b'o' ∷ b'n'
      ∷ b'e' ∷ b' ' ∷ b't' ∷ b'o' ∷ b' ' ∷ b'g' ∷ b'e' ∷ b't' ∷ b' ' ∷ b't' ∷ b'h' ∷ b'e' ∷ b' '
      ∷ b'l' ∷ b'i' ∷ b'n' ∷ b'k' ∷ [];
  url =
      b'g' ∷ b'i' ∷ b't' ∷ b'h' ∷ b'u' ∷ b'b' ∷ b'.' ∷ b'c' ∷ b'o' ∷ b'm' ∷ b'/' ∷ b'e' ∷ b's'
      ∷ b'p' ∷ b'-' ∷ b'r' ∷ b's' ∷ b'/' ∷ b'e' ∷ b's' ∷ b'p' ∷ b'-' ∷ b'h' ∷ b'a' ∷ b'l' ∷ [];
  image = none;
}
