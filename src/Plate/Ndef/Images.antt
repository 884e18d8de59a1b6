-- ===== src/Plate/Ndef/Images.antt =====
-- The image of a content behind `apply_ndef`, `apply_plain` and the loading of the flash: it has all
-- its rows.
use paper_name_plate.Base.{ℕ, zero, suc, ◌≡◌, ◌∙◌, refl, sym, subst, arith, List, [], ◌∷◌}
use paper_name_plate.Base.{Option, none, some, Option-cases, inl, inr, length}
use paper_name_plate.Text.Utf8.{Str}
use paper_name_plate.Plate.Image.{MonoImage, decode, decode_owned}
use paper_name_plate.Plate.Image.Codec.{IsImage, decode-IsImage, decode_owned-eq-decode}
use paper_name_plate.Plate.Content.{PlateContent}
use paper_name_plate.Plate.Plain.{apply_plain}
use paper_name_plate.Plate.Plain.Limits.{apply_plain_cases}
use paper_name_plate.Plate.Ndef.Record.{NdefRecord, record_at}
use paper_name_plate.Plate.Ndef.Read.{
  apply_text, apply_text_record, raw_image, apply_image_record, apply_uri_record, apply_record,
  apply_from, apply_ndef,
}

-- An image, if there is one, fits the panel and has all its rows.
pub record IsWhole (i : Option MonoImage) : Type 0 where
  pub image : (img : MonoImage) → i ≡ some img → IsImage img

pub none-IsWhole : IsWhole none
none-IsWhole = record { image = λ img e. absurd (ground arith) }

pub some-IsWhole : (img : MonoImage) → IsImage img → IsWhole (some img)
some-IsWhole img v = record { image = λ i e. ground (arith, v) }

apply_image_record-IsWhole :
    (payload : List ℕ) (c : PlateContent)
    → IsWhole c.image
    → IsWhole (apply_image_record payload c).image
unfolding apply_image_record
apply_image_record-IsWhole payload c h = elim (Option-cases (raw_image payload)) [
  | inl e ↦ rw (e, apply_image_record) h
  | inr (raw, e) ↦ elim (Option-cases (decode raw)) [
    | inl f ↦ rw (e, f, apply_image_record) h
    | inr (img, f) ↦ rw (e, f, apply_image_record) (some-IsWhole img (decode-IsImage raw img f))
  ]
]

apply_text_record_image :
    (payload : List ℕ) (c : PlateContent) → (apply_text_record payload c).image ≡ c.image
unfolding apply_text_record apply_text
apply_text_record_image payload c = ground arith

apply_uri_record_image :
    (payload : List ℕ) (c : PlateContent) → (apply_uri_record payload c).image ≡ c.image
unfolding apply_uri_record
apply_uri_record_image [] c = refl
apply_uri_record_image (prefix ∷ rest) c = refl

apply_record-IsWhole :
    (r : NdefRecord) (c : PlateContent) → IsWhole c.image → IsWhole (apply_record r c).image
unfolding apply_record
apply_record-IsWhole r c h = ground (
  arith,
  apply_image_record-IsWhole r.payload c h,
  apply_text_record_image r.payload c,
  apply_uri_record_image r.payload c,
)

apply_from-IsWhole :
    (fuel : ℕ) (msg : List ℕ) (i : ℕ) (c d : PlateContent)
    → IsWhole c.image
    → apply_from fuel msg i c ≡ some d
    → IsWhole d.image
unfolding apply_from
apply_from-IsWhole zero msg i c d h e = absurd (ground arith)
apply_from-IsWhole (suc fuel) msg i c d h e = elim (Option-cases (record_at msg i)) [
  | inl f ↦ ground (arith, h)
  | inr (r, f) ↦
      let v = apply_record-IsWhole r c h in
      ground (arith, v, apply_from-IsWhole fuel msg r.next (apply_record r c) d v)
]

-- The image behind a message is the one at hand, or one that was decoded.
pub apply_ndef-IsWhole :
    (msg : List ℕ) (c d : PlateContent)
    → IsWhole c.image
    → apply_ndef msg c ≡ some d
    → IsWhole d.image
unfolding apply_ndef
apply_ndef-IsWhole msg c d h e = apply_from-IsWhole (suc (length msg)) msg 0 c d h e

pub decode_owned-IsWhole : (p : List ℕ) → IsWhole (decode_owned p)
decode_owned-IsWhole p = record {
  image = λ img e. decode-IsImage p img (sym (decode_owned-eq-decode p) ∙ e);
}

pub apply_plain-IsWhole :
    (c : PlateContent) (text : Str) → IsWhole c.image → IsWhole (apply_plain c text).0.image
apply_plain-IsWhole c text h = elim (apply_plain_cases c text) [
  | inl (a, b, d, e) ↦ subst IsWhole (sym e) h
  | inr (a, e) ↦ subst (λ d. IsWhole d.image) (sym e) h
]
