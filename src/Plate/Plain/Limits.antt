-- ===== src/Plate/Plain/Limits.antt =====
-- What `apply_plain` accepts, and what it changes.
use paper_name_plate.Base.{◌≤◌, ◌≡◌, ◌⊎◌, arith, Bool-cases, inl, inr, ltb}
use paper_name_plate.Text.Utf8.{Str, str_len}
use paper_name_plate.Plate.Content.{PlateContent}
use paper_name_plate.Plate.Plain.{accepted, text_too_long, url_too_long, text_len}
use paper_name_plate.Plate.Plain.{parse_plain, apply_plain, validate_plain}
use paper_name_plate.Plate.Plain.{max_text_payload, max_url_len}

-- The content fits the short records of the tag.
pub record Fits (c : PlateContent) : Type 0 where
  pub text : text_len c ≤ max_text_payload
  pub link : str_len c.url ≤ max_url_len

-- An accepted text gives a content that fits, with the image as it was; a rejected one changes nothing.
pub apply_plain_cases :
    (c : PlateContent) (text : Str)
    → (((apply_plain c text).1 ≡ accepted)
        × Fits (apply_plain c text).0
        × ((apply_plain c text).0 ≡ parse_plain c text)
        × ((apply_plain c text).0.image ≡ c.image))
      ⊎ ((((apply_plain c text).1 ≡ text_too_long) ⊎ ((apply_plain c text).1 ≡ url_too_long))
          × ((apply_plain c text).0 ≡ c))
unfolding apply_plain
apply_plain_cases c text =
    let parsed = parse_plain c text in
    elim (Bool-cases (ltb max_text_payload (text_len parsed))) [
      | inl e ↦ inr (ground arith)
      | inr e ↦ elim (Bool-cases (ltb max_url_len (str_len parsed.url))) [
        | inl f ↦ inr (ground arith)
        | inr f ↦ inl (ground arith, ground arith, ground arith, ground arith)
      ]
    ]

-- Validation answers for every content: it gives the verdict that `apply_plain` gives, whatever is
-- shown.
pub validate_plain-apply_plain :
    (c : PlateContent) (text : Str) → (apply_plain c text).1 ≡ validate_plain text
unfolding apply_plain validate_plain
validate_plain-apply_plain c text = ground arith

pub apply_plain-Fits :
    (c : PlateContent) (text : Str)
    → Fits (parse_plain c text)
    → apply_plain c text ≡ (parse_plain c text, accepted)
unfolding apply_plain
apply_plain-Fits c text f = ground arith
