-- ===== src/App/Store/Committed.antt =====
-- What app/mod.rs leaves behind a change of the content: the flash, the tag and the content agree.
use paper_name_plate.Base.{
  ℕ, ◌≤◌, ◌≡◌, ◌∙◌, refl, ap, sym, subst, arith, List, true, Option, none, some,
}
use paper_name_plate.Base.{length, leb, Bool-cases, inl, inr}
use paper_name_plate.Base.Results.{ok}
use paper_name_plate.Base.Io.{pure, continue, ◌>>=◌, ◌>>◌, update, gets, Keeps}
use paper_name_plate.Base.Io.{continue-state}
use paper_name_plate.App.Kept.{On, calls_keep, redraw_plate-On, wake_epd-On, refresh_and_keep-On}
use paper_name_plate.App.Store.Returns.{commit_content-Total}
use paper_name_plate.Plate.Content.{PlateContent}
use paper_name_plate.Plate.Ndef.Write.{to_ndef}
use paper_name_plate.Plate.Image.{MonoImage}
use paper_name_plate.Plate.Image.Codec.{IsImage}
use paper_name_plate.Storage.Record.{load, save, save_image}
use paper_name_plate.Storage.Record.Regions.{HoldsRegions, load-save, load_image-save_image}
use paper_name_plate.Tag.Memory.{mem_bytes, found, ndef, set_ndef}
use paper_name_plate.Tag.Memory.Ndef.{FitsTag, ndef-set_ndef}
use paper_name_plate.Panel.Driver.Refresh.{text}
use paper_name_plate.App.{Machine, App, Done, on_flash}
use paper_name_plate.App.Display.{refresh_and_keep, wake_epd, set_fast_refreshes}
use paper_name_plate.App.Store.{
  serve_ndef, save_content, keep_image, mark_image, keep_small_image, redraw_plate, commit_content,
  served,
}

module _ (m : Machine) where
  open m use {
    World, bus, wire, flash, flash_of, flash_of-with_flash, flash_of-with_bus, flash_of-with_wire,
  }

  -- The flash has the property `F`, and the content and the memory of the tag are these.
  abbrev pub Holds : (flash.State → Type 0) → PlateContent → List ℕ → App m → Type 0
  Holds F c t = On m (λ s d u i. F s × (d ≡ c) × (u ≡ t))

  -- What `commit_content` does once the content is served and kept.
  abbrev pub show_content : Done m
  show_content = do wake_epd m; redraw_plate m; refresh_and_keep m text; set_fast_refreshes m 1

  show_content-Holds :
      (F : flash.State → Type 0) (c : PlateContent) (t : List ℕ) → Keeps (Holds F c t) show_content
  show_content-Holds F c t =
      search (calls_keep, redraw_plate-On, wake_epd-On, refresh_and_keep-On) depth 20

  -- The image, if there is one, is whole, and its writing succeeds.
  abbrev pub IsKept : Option MonoImage → flash.State → Type 0
  IsKept none s = Unit {0}
  IsKept (some img) s = IsImage img × ((save_image flash s img.width img.height img.bits).1 ≡ true)

  module _ (room : HoldsRegions flash) (msg : List ℕ) where
    -- The flash keeps the message.
    abbrev Keeping : flash.State → Type 0
    Keeping s = load flash s ≡ some msg

    keep_image-Holds :
        (img : MonoImage) (a : App m)
        → IsKept (some img) (flash_of a.world)
        → Keeping (flash_of a.world)
        → Holds Keeping a.content a.emu.tag.memory (keep_image m img a).0
    unfolding keep_image on_flash mark_image ◌>>=◌ update
    keep_image-Holds img a k h =
        let (v, done) = k in
        let s = flash_of a.world in
        rw done (
          subst Keeping (sym (flash_of-with_flash a.world _))
              ((load_image-save_image flash s img room v done).2 ∙ h),
          refl,
          refl,
        )

    keep_small_image-Holds :
        (i : Option MonoImage) (a : App m)
        → IsKept i (flash_of a.world)
        → Keeping (flash_of a.world)
        → Holds Keeping a.content a.emu.tag.memory (keep_small_image m i a).0
    unfolding keep_small_image pure
    keep_small_image-Holds none a k h = (h, refl, refl)
    keep_small_image-Holds (some img) a k h = elim (Bool-cases (leb (length img.bits) 8192)) [
      | inl e ↦ rw e (keep_image-Holds img a k h)
      | inr e ↦ rw e (h, refl, refl)
    ]

  -- The state in which the message is served and kept.
  abbrev kept : App m → App m
  kept a = let msg = to_ndef a.content in (save_content m msg (served m msg a)).0

  -- The message of the content.
  abbrev pub message : App m → List ℕ
  message a = to_ndef a.content

  commit_content-steps :
      (a : App m)
      → commit_content m a
        ≡ continue (keep_small_image m a.content.image (kept a)) (λ u. show_content)
  unfolding commit_content serve_ndef save_content ◌>>=◌ gets update on_flash pure
  commit_content-steps a = refl

  -- A content whose message fits the tag and is written, with its image if it has one, is committed:
  -- the call returns, the flash and the tag hold the message, and the content is as it was.
  pub commit_content-agrees :
      (a : App m)
      → HoldsRegions flash
      → length a.emu.tag.memory ≡ mem_bytes
      → FitsTag (message a)
      → 1 ≤ length (message a)
      → (save flash (flash_of a.world) (message a)).1 ≡ true
      → IsKept a.content.image (save flash (flash_of a.world) (message a)).0
      → ((commit_content m a).1 ≡ ok tt)
        × (load flash (flash_of (commit_content m a).0.world) ≡ some (message a))
        × (ndef (commit_content m a).0.emu.tag.memory ≡ found (message a))
        × ((commit_content m a).0.content ≡ a.content)
  unfolding save_content on_flash ◌>>=◌ pure
  commit_content-agrees a room whole fits one done image =
      let msg = message a in
      let s = (save flash (flash_of a.world) msg).0 in
      let e : flash_of (kept a).world ≡ s = flash_of-with_flash a.world s in
      let t = (set_ndef a.emu.tag.memory msg).0 in
      let first =
        keep_small_image-Holds room msg a.content.image (kept a)
          (subst (IsKept a.content.image) (sym e) image)
          (subst (Keeping room msg) (sym e)
            (load-save flash (flash_of a.world) msg room one (omega arith) done).0) in
      let all : Holds (Keeping room msg) a.content t (commit_content m a).0 =
        subst (λ r. Holds (Keeping room msg) a.content t r.0) (sym (commit_content-steps a))
          (continue-state (Holds (Keeping room msg) a.content t)
            (keep_small_image m a.content.image (kept a)) (λ u. show_content) first
            (λ u h. (show_content-Holds (Keeping room msg) a.content t).keep _ first)) in
      (
        ((commit_content-Total m).returns a).1,
        all.0,
        ap ndef all.2 ∙ (ndef-set_ndef a.emu.tag.memory msg whole fits).1,
        all.1,
      )
