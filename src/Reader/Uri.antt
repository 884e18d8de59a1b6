-- ===== src/Reader/Uri.antt =====
-- `uri_prefix` of ndef.rs.
use paper_name_plate.Base.{ℕ, [], ◌∷◌, ◌++◌, ◌==◌, if◌then◌else◌}
use paper_name_plate.Text.Utf8.{Str}

abbrev http_text : Str
http_text = b'h' ∷ b't' ∷ b't' ∷ b'p' ∷ []

abbrev www_text : Str
www_text = b'w' ∷ b'w' ∷ b'w' ∷ b'.' ∷ []

abbrev slashes : Str
slashes = b':' ∷ b'/' ∷ b'/' ∷ []

unfoldable pub uri_prefix : ℕ → Str
uri_prefix code =
    if code == 0x01
    then http_text ++ (slashes ++ www_text)
    else if code == 0x02
    then http_text ++ (b's' ∷ (slashes ++ www_text))
    else if code == 0x03
    then http_text ++ slashes
    else if code == 0x04
    then http_text ++ (b's' ∷ slashes)
    else if code == 0x05
    then b't' ∷ b'e' ∷ b'l' ∷ b':' ∷ []
    else if code == 0x06
    then b'm' ∷ b'a' ∷ b'i' ∷ b'l' ∷ b't' ∷ b'o' ∷ b':' ∷ []
    else []
