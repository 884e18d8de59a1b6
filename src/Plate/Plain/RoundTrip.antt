-- ===== src/Plate/Plain/RoundTrip.antt =====
-- `apply_plain` reads back the text that `to_plain` wrote.
use paper_name_plate.Base.{◌≡◌, sym, subst, ap, ◌∙◌, [], ◌∷◌}
use paper_name_plate.Base.{none, ◌==◌}
use paper_name_plate.Text.Utf8.{Str}
use paper_name_plate.Text.Trim.{is_whitespace, strip_prefix}
use paper_name_plate.Text.Trim.{NotFirst, IsTrimmed, trim-fixed, trim_start_while-fixed}
use paper_name_plate.Text.Trim.{trim_end_while-fixed, NotLast-weaken, cr_of_whitespace}
use paper_name_plate.Text.Trim.{trim_start_matches-none}
use paper_name_plate.Text.Split.{newline, split, Without, split_line, split_line-append}
use paper_name_plate.Plate.Content.{PlateContent, https, http}
use paper_name_plate.Plate.Plain.{accepted, to_plain, clean_line, strip_scheme}
use paper_name_plate.Plate.Plain.{parse_plain, apply_plain}
use paper_name_plate.Plate.Plain.Limits.{Fits, apply_plain-Fits}

-- One line, with no white space at its ends.
pub record IsLine (s : Str) : Type 0 where
  pub one_line : Without newline s
  pub trimmed : IsTrimmed s

-- Six lines, the accounts without `@`, the link without its scheme.
pub record IsPlain (c : PlateContent) : Type 0 where
  pub name : IsLine c.name
  pub email : IsLine c.email
  pub github : IsLine c.github
  pub github_bare : NotFirst (λ d. d == b'@') c.github
  pub x : IsLine c.x
  pub x_bare : NotFirst (λ d. d == b'@') c.x
  pub note : IsLine c.note
  pub url : IsLine c.url
  pub no_https : strip_prefix https c.url ≡ none
  pub no_http : strip_prefix http c.url ≡ none

clean_line-IsLine : (s : Str) → IsLine s → clean_line s ≡ s
unfolding clean_line
clean_line-IsLine s h =
    rw
      (trim_end_while-fixed (λ c. c == 0x0D) s
        (NotLast-weaken is_whitespace (λ c. c == 0x0D) s cr_of_whitespace h.trimmed.1))
      (trim-fixed s h.trimmed)

pub strip_scheme-fixed :
    (s : Str) → strip_prefix https s ≡ none → strip_prefix http s ≡ none → strip_scheme s ≡ s
unfolding strip_scheme
strip_scheme-fixed s h k = rw (trim_start_matches-none https s h) (trim_start_matches-none http s k)

split-to_plain :
    (c : PlateContent)
    → IsPlain c
    → split (to_plain c) ≡ c.name ∷ c.email ∷ c.github ∷ c.x ∷ c.note ∷ c.url ∷ []
unfolding to_plain
split-to_plain c h = rw (
  split_line-append c.name _ h.name.one_line,
  split_line-append c.email _ h.email.one_line,
  split_line-append c.github _ h.github.one_line,
  split_line-append c.x _ h.x.one_line,
  split_line-append c.note _ h.note.one_line,
  split_line c.url h.url.one_line,
)

parse_plain-to_plain :
    (c d : PlateContent) → IsPlain d → parse_plain c (to_plain d) ≡ record d { image = c.image }
unfolding parse_plain
parse_plain-to_plain c d h = rw (
  split-to_plain d h,
  clean_line-IsLine d.name h.name,
  clean_line-IsLine d.email h.email,
  clean_line-IsLine d.github h.github,
  clean_line-IsLine d.x h.x,
  clean_line-IsLine d.note h.note,
  clean_line-IsLine d.url h.url,
  trim_start_while-fixed (λ c. c == b'@') d.github h.github_bare,
  trim_start_while-fixed (λ c. c == b'@') d.x h.x_bare,
  strip_scheme-fixed d.url h.no_https h.no_http,
)

-- The text that `to_plain` writes of a content that fits, whose fields are lines without space at
-- either end, the accounts without `@` in front and the link without its scheme, is accepted, and sets
-- every text field to that content's and leaves the image as it was.
pub apply_plain-to_plain :
    (c d : PlateContent)
    → IsPlain d
    → Fits d
    → apply_plain c (to_plain d) ≡ (record d { image = c.image }, accepted)
apply_plain-to_plain c d h f =
    let e = parse_plain-to_plain c d h in
    apply_plain-Fits c (to_plain d) (subst Fits (sym e) (record { text = f.text; link = f.link }))
    ∙ ap (λ r. (r, accepted)) e
