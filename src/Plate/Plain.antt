-- ===== src/Plate/Plain.antt =====
-- The plain-text form of the content, which BLE reads and writes: `to_plain`, `apply_plain` and
-- `validate_plain` of app/plate.rs.
pub mod Limits
pub mod RoundTrip
use paper_name_plate.Base.{ℕ, ◌+◌, List, [], ◌∷◌, ◌++◌, none, ltb, ◌==◌, if◌then◌else◌, get_or, map}
use paper_name_plate.Text.Utf8.{Str, str_len}
use paper_name_plate.Text.Trim.{trim, trim_end_while, trim_start_while, trim_start_matches}
use paper_name_plate.Text.Split.{newline, split}
use paper_name_plate.Plate.Content.{PlateContent, empty_content, https, http}

-- `MAX_TEXT_PAYLOAD` and `MAX_URL_LEN`
abbrev pub max_text_payload : ℕ
max_text_payload = 240

abbrev pub max_url_len : ℕ
max_url_len = 200

-- `Result<(), &'static str>`; the two errors are the code's messages.
pub data Verdict : Type 0 where
  accepted text_too_long url_too_long : Verdict

unfoldable pub to_plain : PlateContent → Str
to_plain c =
    c.name
    ++ (newline
        ∷ (c.email
            ++ (newline
                ∷ (c.github ++ (newline ∷ (c.x ++ (newline ∷ (c.note ++ (newline ∷ c.url)))))))))

-- `l.trim_end_matches('\r').trim()`
unfoldable pub clean_line : Str → Str
clean_line l = trim (trim_end_while (λ c. c == 0x0D) l)

-- `trim_start_matches('@')`
abbrev pub strip_at : Str → Str
strip_at = trim_start_while (λ c. c == b'@')

-- `trim_start_matches("https://").trim_start_matches("http://")`
unfoldable pub strip_scheme : Str → Str
strip_scheme s = trim_start_matches http (trim_start_matches https s)

-- The fields that a text stands for; a missing line is empty. The image is the caller's.
unfoldable pub parse_plain : PlateContent → Str → PlateContent
parse_plain c text =
    let lines = map clean_line (split text) in
    record c {
      name = get_or lines 0 [];
      email = get_or lines 1 [];
      github = strip_at (get_or lines 2 []);
      x = strip_at (get_or lines 3 []);
      note = get_or lines 4 [];
      url = strip_scheme (get_or lines 5 []);
    }

-- `name.len() + email.len() + github.len() + x.len() + note.len() + 4`
abbrev pub text_len : PlateContent → ℕ
text_len c = str_len c.name + str_len c.email + str_len c.github + str_len c.x + str_len c.note + 4

-- The content after the call, and what it returns.
unfoldable pub apply_plain : PlateContent → Str → PlateContent × Verdict
unfolding parse_plain
apply_plain c text =
    let parsed = parse_plain c text in
    if ltb max_text_payload (text_len parsed)
    then (c, text_too_long)
    else if ltb max_url_len (str_len parsed.url)
    then (c, url_too_long)
    else (parsed, accepted)

unfoldable pub validate_plain : Str → Verdict
unfolding apply_plain
validate_plain text = (apply_plain empty_content text).1
