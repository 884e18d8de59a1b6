-- ===== src/Plate/Ndef/Lines.antt =====
-- The text record of app/plate.rs, line by line: what `to_ndef` writes and `apply_ndef` reads.
use paper_name_plate.Base.{◌≡◌, ◌≢◌, refl, ap}
use paper_name_plate.Base.{[], ◌∷◌, ◌++◌}
use paper_name_plate.Base.{◌==◌, All, ne→==, get_or}
use paper_name_plate.Text.Utf8.{Str, encode_char, as_bytes, as_bytes-append, IsScalar}
use paper_name_plate.Text.Trim.{
  NotLast, is_whitespace, NotLast-weaken, cr_of_whitespace, replace_char, trim_start_while-fixed,
}
use paper_name_plate.Text.Split.{
  newline, split, lines, split_line, split_line-append, strip_cr, last_line,
}
use paper_name_plate.Plate.Content.{PlateContent}
use paper_name_plate.Plate.Plain.RoundTrip.{IsLine, IsPlain}
use paper_name_plate.Plate.Ndef.Write.{text_payload}
use paper_name_plate.Plate.Ndef.Read.{apply_text}

-- The fields of a content as the text record has them: five lines.
abbrev pub five : PlateContent → Str
five c =
    c.name
    ++ (newline ∷ (c.email ++ (newline ∷ (c.github ++ (newline ∷ (c.x ++ (newline ∷ c.note)))))))

pub as_bytes-line : (s t : Str) → as_bytes (s ++ (newline ∷ t)) ≡ as_bytes s ++ (0x0A ∷ as_bytes t)
unfolding as_bytes encode_char
as_bytes-line s t = as_bytes-append s (newline ∷ t)

pub text_payload-five : (c : PlateContent) → text_payload c ≡ as_bytes (five c)
unfolding text_payload
text_payload-five c =
    rw
      (
        as_bytes-line c.name _,
        as_bytes-line c.email _,
        as_bytes-line c.github _,
        as_bytes-line c.x _,
      )
      refl

-- Every field is of scalar values, and the lines are without `;`, which stands for a line break in a
-- message.
pub record IsSent (c : PlateContent) : Type 0 where
  pub scalars : All IsScalar (five c)
  pub no_semicolon : All (λ d. d ≢ b';') (five c)
  pub link_scalars : All IsScalar c.url

replace_char-fixed : (s : Str) → All (λ d. d ≢ b';') s → replace_char b';' newline s ≡ s
replace_char-fixed [] h = refl
replace_char-fixed (c ∷ s) h = rw (ne→== c b';' h.0, replace_char-fixed s h.1) refl

split-five :
    (c : PlateContent)
    → IsPlain c
    → split (five c) ≡ c.name ∷ c.email ∷ c.github ∷ c.x ∷ c.note ∷ []
split-five c h = rw (
  split_line-append c.name _ h.name.one_line,
  split_line-append c.email _ h.email.one_line,
  split_line-append c.github _ h.github.one_line,
  split_line-append c.x _ h.x.one_line,
  split_line c.note h.note.one_line,
)

strip_cr-fixed : (s : Str) → NotLast (λ c. c == 0x0D) s → strip_cr s ≡ s
strip_cr-fixed [] h = refl
strip_cr-fixed (c ∷ []) h = rw h refl
strip_cr-fixed (c ∷ d ∷ s) h = ap (λ r. c ∷ r) (strip_cr-fixed (d ∷ s) h)

strip_cr-IsLine : (s : Str) → IsLine s → strip_cr s ≡ s
strip_cr-IsLine s h =
    strip_cr-fixed s (NotLast-weaken is_whitespace (λ c. c == 0x0D) s cr_of_whitespace h.trimmed.1)

get_or-last_line : (s : Str) → get_or (last_line s) 0 [] ≡ s
get_or-last_line [] = refl
get_or-last_line (c ∷ s) = refl

lines-five :
    (c : PlateContent)
    → IsPlain c
    → lines (five c) ≡ c.name ∷ c.email ∷ c.github ∷ c.x ∷ last_line c.note
unfolding lines
lines-five c h =
    rw
      (
        split-five c h,
        strip_cr-IsLine c.name h.name,
        strip_cr-IsLine c.email h.email,
        strip_cr-IsLine c.github h.github,
        strip_cr-IsLine c.x h.x,
      )
      refl

-- The five lines set the five fields.
abbrev pub with_text : PlateContent → PlateContent → PlateContent
with_text d c = record d { url = c.url; image = c.image }

pub apply_text-five :
    (c d : PlateContent) → IsPlain d → IsSent d → apply_text (five d) c ≡ with_text d c
unfolding apply_text
apply_text-five c d h k =
    rw
      (
        replace_char-fixed (five d) k.no_semicolon,
        lines-five d h,
        trim_start_while-fixed (λ c. c == b'@') d.github h.github_bare,
        trim_start_while-fixed (λ c. c == b'@') d.x h.x_bare,
        get_or-last_line d.note,
      )
      refl
