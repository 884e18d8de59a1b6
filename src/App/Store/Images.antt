-- ===== src/App/Store/Images.antt =====
-- The image in app/mod.rs: it is drawn whether it stays in memory or only in flash.
use paper_name_plate.Base.{
  ℕ, ◌≤◌, ◌≡◌, ◌∙◌, ◌⊎◌, inl, inr, refl, ap, sym, subst, arith, List, Bool, true, false, ◌&&◌,
}
use paper_name_plate.Base.{Option, none, some, append-nil, length, Bool-cases}
use paper_name_plate.Base.Results.{ok}
use paper_name_plate.Base.Io.{
  pure, continue, ◌>>=◌, ◌>>◌, update, gets, Keeps, Keeps-update, Total, total_rules,
}
use paper_name_plate.Plate.Image.{MonoImage, encode, decode}
use paper_name_plate.Plate.Image.Codec.{IsImage, decode-encode, decode_owned-eq-decode}
use paper_name_plate.Plate.Content.{PlateContent}
use paper_name_plate.Plate.Draw.{draw}
use paper_name_plate.Plate.Ndef.Write.{to_ndef}
use paper_name_plate.Storage.Record.{load, save, load_image, save_image}
use paper_name_plate.Storage.Record.Regions.{HoldsRegions, load-save, load_image-save_image}
use paper_name_plate.Tag.Memory.{mem_bytes, found, ndef, set_ndef}
use paper_name_plate.Tag.Memory.Ndef.{FitsTag, ndef-set_ndef}
use paper_name_plate.Panel.Driver.Refresh.{quality}
use paper_name_plate.App.{Machine, App, Done, on_flash, note_activity}
use paper_name_plate.App.Display.{
  with_image, exceeds, filled, trimmed, decoded, stored_image, shown, draw_plate, trim_image,
  wake_epd, refresh_and_keep, set_fast_refreshes,
}
use paper_name_plate.App.Store.{
  put_image, keep_image, mark_image, served, serve_ndef, save_content, draw_content, trim,
  on_ble_image,
}
use paper_name_plate.App.Kept.{On, calls_keep, wake_epd-On, refresh_and_keep-On}
use paper_name_plate.App.Store.Returns.{wake_epd-Total, refresh_and_keep-Total}

decoded-encode : (img : MonoImage) → IsImage img → decoded (some (encode img)) ≡ some img
decoded-encode img v =
    decode_owned-eq-decode (encode img)
    ∙ ap decode (sym (append-nil (encode img)))
    ∙ decode-encode img _ v

filled-trimmed :
    (b : Bool) (i j : Option MonoImage) (c : PlateContent)
    → (b ≡ true → (img : MonoImage) → j ≡ some img → i ≡ some img)
    → filled b i (trimmed b (with_image j c)) ≡ filled b i (with_image j c)
filled-trimmed false i none c h = refl
filled-trimmed false i (some img) c h = refl
filled-trimmed true i none c h = refl
filled-trimmed true i (some img) c h = elim (Bool-cases (exceeds (some img))) [
  | inl e ↦ rw e (ap (λ k. with_image k c) (h refl img refl))
  | inr e ↦ rw e refl
]

filled-either :
    (img : MonoImage) (j : Option MonoImage) (d : PlateContent)
    → (j ≡ some img) ⊎ (j ≡ none)
    → filled true (some img) (with_image j d) ≡ with_image (some img) d
filled-either img none d h = refl
filled-either img (some i) d (inl e) = ap (λ k. with_image k d) e
filled-either img (some i) d (inr e) = cc

module _ (m : Machine) where
  open m use {World, flash, flash_of, flash_of-with_flash, fonts}

  -- The image at hand, if one is, is the stored one, if the application takes one to be stored.
  abbrev pub IsBacked : App m → Type 0
  IsBacked a =
      a.image_in_flash ≡ true
      → (img : MonoImage) → a.content.image ≡ some img
      → IsImage img × (load_image flash (flash_of a.world) ≡ some (encode img))

  shown-trim_image : (a : App m) → IsBacked a → shown m (trim_image m a) ≡ shown m a
  unfolding shown trim_image
  shown-trim_image a h =
      filled-trimmed a.image_in_flash (stored_image m a) a.content.image a.content
        (λ b img e. ap decoded (h b img e).1 ∙ decoded-encode img (h b img e).0)

  -- Dropping a large image from memory changes nothing that is drawn later, if the flash backs it.
  pub draw_plate-trim_image :
      (a : App m) → IsBacked a → (draw_plate m (trim_image m a)).fb ≡ (draw_plate m a).fb
  unfolding draw_plate
  draw_plate-trim_image a h =
      unfold trim_image in ap (λ c. draw fonts c a.fb) (shown-trim_image a h)

  -- What `on_ble_image` does once the image and the content are kept.
  abbrev show_image : Done m
  show_image = do
    wake_epd m
    draw_content m
    trim m
    refresh_and_keep m quality
    set_fast_refreshes m 1
    note_activity m

  -- The flash and the tag hold the message, the flash holds the image, and the content is `c`, with
  -- the image or without it.
  module _ (img : MonoImage) (c : PlateContent) (msg t : List ℕ) where
    abbrev Backed : flash.State → PlateContent → List ℕ → Bool → Type 0
    Backed s d u i =
        (load_image flash s ≡ some (encode img))
        × (load flash s ≡ some msg)
        × (u ≡ t)
        × (i ≡ true)
        × (with_image none d ≡ with_image none c)
        × ((d.image ≡ some img) ⊎ (d.image ≡ none))

    trimmed-Backed :
        (s : flash.State) (d : PlateContent) (u : List ℕ) (i : Bool)
        → Backed s d u i
        → Backed s (trimmed i d) u i
    trimmed-Backed s d u i h = elim (Bool-cases (i && exceeds d.image)) [
      | inl e ↦ rw e (h.0, h.1, h.2, h.3, h.4, inr refl)
      | inr e ↦ rw e h
    ]

    trim-Backed : Keeps (On m Backed) (trim m)
    unfolding trim trim_image
    trim-Backed =
        Keeps-update _
          (λ a h. trimmed-Backed (flash_of a.world) a.content a.emu.tag.memory a.image_in_flash h)

    show_image-Backed : Keeps (On m Backed) show_image
    show_image-Backed = search (calls_keep, trim-Backed, wake_epd-On, refresh_and_keep-On) depth 30

  abbrev after_image : MonoImage → Done m
  after_image img = do
    put_image m (some img)
    a ← gets (λ a. a)
    serve_ndef m (to_ndef a.content)
    save_content m (to_ndef a.content)
    show_image

  abbrev emptied : App m → App m
  emptied a = record a { content = with_image none a.content }

  on_ble_image-steps :
      (img : MonoImage) (a : App m)
      → on_ble_image m img a ≡ continue (keep_image m img (emptied a)) (λ u. after_image img)
  unfolding on_ble_image put_image ◌>>=◌ update gets
  on_ble_image-steps img a = refl

  -- The states behind the writing of the image, and behind that of the content.
  abbrev stored : MonoImage → App m → App m
  stored img a = record a {
    world =
        m.with_flash a.world (save_image flash (flash_of a.world) img.width img.height img.bits).0;
    image_in_flash = true;
  }

  keep_image-done :
      (img : MonoImage) (a : App m)
      → (save_image flash (flash_of a.world) img.width img.height img.bits).1 ≡ true
      → keep_image m img a ≡ (stored img a, ok tt)
  unfolding keep_image on_flash mark_image ◌>>=◌ update
  keep_image-done img a e = rw e refl

  abbrev with_content : List ℕ → App m → App m
  with_content msg a = (save_content m msg (served m msg a)).0

  after_image-steps :
      (img : MonoImage) (a : App m)
      → let d = record a { content = with_image (some img) a.content } in
        after_image img a ≡ show_image (with_content (to_ndef d.content) d)
  unfolding put_image serve_ndef save_content on_flash ◌>>=◌ update gets pure
  after_image-steps img a = refl

  show_image-Total : Total show_image
  unfolding draw_content trim set_fast_refreshes note_activity
  show_image-Total = search (total_rules, wake_epd-Total, refresh_and_keep-Total) depth 30

  -- The content with the image, and its message.
  abbrev pub pictured : MonoImage → App m → PlateContent
  pictured img a = with_image (some img) a.content

  -- The flash behind the writing of the image.
  abbrev pub pictured_flash : MonoImage → App m → flash.State
  pictured_flash img a = (save_image flash (flash_of a.world) img.width img.height img.bits).0

  shown-Backed :
      (img : MonoImage) (c : PlateContent) (msg t : List ℕ) (b : App m)
      → IsImage img
      → On m (Backed img c msg t) b
      → shown m b ≡ with_image (some img) c
  unfolding shown
  shown-Backed img c msg t b v h =
      let s : stored_image m b ≡ some img = ap decoded h.0 ∙ decoded-encode img v in
      ap (λ i. filled i (stored_image m b) b.content) h.3
      ∙ ap (λ k. filled true k b.content) s
      ∙ filled-either img b.content.image b.content h.5
      ∙ ap (with_image (some img)) h.4

  -- A whole image that comes over Bluetooth, whose records are written, and with which the message
  -- of the content fits the tag, is on the plate when the call returns, which it does, whether it
  -- stays in memory or not: what the next drawing takes is the content with the image, the flash
  -- holds the image and the message of that content, and the tag serves that message.
  pub on_ble_image-shown :
      (img : MonoImage) (a : App m)
      → HoldsRegions flash
      → IsImage img
      → length a.emu.tag.memory ≡ mem_bytes
      → FitsTag (to_ndef (pictured img a))
      → 1 ≤ length (to_ndef (pictured img a))
      → (save_image flash (flash_of a.world) img.width img.height img.bits).1 ≡ true
      → (save flash (pictured_flash img a) (to_ndef (pictured img a))).1 ≡ true
      → ((on_ble_image m img a).1 ≡ ok tt)
        × (shown m (on_ble_image m img a).0 ≡ pictured img a)
        × (load_image flash (flash_of (on_ble_image m img a).0.world) ≡ some (encode img))
        × (load flash (flash_of (on_ble_image m img a).0.world) ≡ some (to_ndef (pictured img a)))
        × (ndef (on_ble_image m img a).0.emu.tag.memory ≡ found (to_ndef (pictured img a)))
  unfolding save_content on_flash ◌>>=◌ pure
  on_ble_image-shown img a room v whole fits one wrote saved =
      let c = pictured img a in
      let msg = to_ndef c in
      let t = (set_ndef a.emu.tag.memory msg).0 in
      let d = record (stored img (emptied a)) { content = c } in
      let s = pictured_flash img a in
      let world : flash_of d.world ≡ s = flash_of-with_flash a.world s in
      let saved' : (save flash (flash_of d.world) msg).1 ≡ true =
        subst (λ u. (save flash u msg).1 ≡ true) (sym world) saved in
      let both = load-save flash (flash_of d.world) msg room one (omega arith) saved' in
      let image : load_image flash (flash_of d.world) ≡ some (encode img) =
        ap (load_image flash) world
        ∙ (load_image-save_image flash (flash_of a.world) img room v wrote).0 in
      let last : flash_of (with_content msg d).world ≡ (save flash (flash_of d.world) msg).0 =
        flash_of-with_flash d.world _ in
      let start : On m (Backed img c msg t) (with_content msg d) = (
        ap (load_image flash) last ∙ both.1 ∙ image,
        ap (load flash) last ∙ both.0,
        refl,
        refl,
        refl,
        inl refl,
      ) in
      let steps : on_ble_image m img a ≡ show_image (with_content msg d) =
        on_ble_image-steps img a
        ∙ ap (λ r. continue r (λ u. after_image img)) (keep_image-done img (emptied a) wrote)
        ∙ after_image-steps img (stored img (emptied a)) in
      let h = (show_image-Backed img c msg t).keep (with_content msg d) start in
      rw steps (
        (show_image-Total.returns (with_content msg d)).1,
        shown-Backed img c msg t _ v h,
        h.0,
        h.1,
        ap ndef h.2 ∙ (ndef-set_ndef a.emu.tag.memory msg whole fits).1,
      )
