-- ===== src/App/Store/Restored.antt =====
-- What the plate shows after a restart: `restore` in app/mod.rs behind a commit of a content.
use paper_name_plate.Base.{◌≡◌, ◌∙◌, refl, ap, sym, arith, length}
use paper_name_plate.Base.{ℕ, List, subst, Option, none, some, true}
use paper_name_plate.Base.Results.{Result, ok}
use paper_name_plate.Base.Io.{pure, continue, ◌>>=◌, update, gets}
use paper_name_plate.Plate.Image.{MonoImage}
use paper_name_plate.Plate.Content.{PlateContent}
use paper_name_plate.Plate.Plain.RoundTrip.{IsPlain}
use paper_name_plate.Plate.Plain.Limits.{Fits}
use paper_name_plate.Plate.Ndef.Lines.{IsSent}
use paper_name_plate.Plate.Ndef.Read.{apply_ndef}
use paper_name_plate.Plate.Ndef.RoundTrip.{received, apply_ndef-to_ndef, length-to_ndef}
use paper_name_plate.Storage.Record.{load, save}
use paper_name_plate.Storage.Record.Regions.{HoldsRegions}
use paper_name_plate.Tag.Memory.{mem_bytes}
use paper_name_plate.App.{Machine, App, Stuck}
use paper_name_plate.App.Display.{with_image, stored_image}
use paper_name_plate.App.Store.{
  commit_content, adopt, adopted, set_content, restore_image, restore_content, restore,
}
use paper_name_plate.App.Store.Committed.{commit_content-agrees, IsKept, message}

-- The stored image, if there is one, or else the one at hand.
abbrev pub image_or : Option MonoImage → Option MonoImage → Option MonoImage
image_or none i = i
image_or (some img) i = some img

module _ (m : Machine) where
  open m use {World, flash, flash_of}

  restore_image_lem :
      (i : Option MonoImage) (s : App m)
      → ((restore_image m i s).1 ≡ ok tt)
        × ((restore_image m i s).0.content ≡ with_image (image_or i s.content.image) s.content)
  unfolding pure update
  restore_image_lem none s = (refl, refl)
  restore_image_lem (some img) s = (refl, refl)

  restore_content_lem :
      (msg : List ℕ) (c : PlateContent) (b : App m)
      → apply_ndef msg b.content ≡ some c
      → restore_content m (some msg) b ≡ (set_content m c b, ok tt)
  unfolding adopt gets update ◌>>=◌
  restore_content_lem msg c b r = ap (λ o. adopted m o b) r

  restore-steps :
      (b : App m)
      → restore m b
        ≡ continue
            (restore_content m (load flash (flash_of b.world)) b)
            (λ u s. restore_image m (stored_image m s) s)
  unfolding restore gets ◌>>=◌
  restore-steps b = refl

  restore-found :
      (msg : List ℕ) (c : PlateContent) (b : App m)
      → load flash (flash_of b.world) ≡ some msg
      → apply_ndef msg b.content ≡ some c
      → restore m b ≡ restore_image m (stored_image m b) (set_content m c b)
  restore-found msg c b e r =
      let rest = λ (s : App m × Result Stuck (Unit {0})).
        continue s (λ u s. restore_image m (stored_image m s) s) in
      restore-steps b
      ∙ ap (λ l. rest (restore_content m l b)) e
      ∙ ap rest (restore_content_lem msg c b r)

  -- A content without an image, of lines of scalar values, bare and without `;`, that fits and whose
  -- record is written, survives a restart: an application that starts on the flash that its commit
  -- left shows every text field of it, the link if it has one and else the link that the application
  -- began with, and the stored image if there is one.
  pub restore-commit_content :
      (a b : App m)
      → HoldsRegions flash
      → length a.emu.tag.memory ≡ mem_bytes
      → IsPlain a.content
      → IsSent a.content
      → Fits a.content
      → a.content.image ≡ none
      → (save flash (flash_of a.world) (message m a)).1 ≡ true
      → flash_of b.world ≡ flash_of (commit_content m a).0.world
      → ((restore m b).1 ≡ ok tt)
        × ((restore m b).0.content
            ≡ with_image
                (image_or (stored_image m b) b.content.image)
                (received a.content b.content))
  restore-commit_content a b room whole h k f e done same =
      let c = received a.content b.content in
      let size = length-to_ndef a.content f e in
      let kept =
        commit_content-agrees m a room whole (ground (arith, size.1)) (omega (arith, size.0)) done
          (subst (λ i. IsKept m i (save flash (flash_of a.world) (message m a)).0) (sym e) tt) in
      let found =
        restore-found (message m a) c b (ap (load flash) same ∙ kept.1)
          (apply_ndef-to_ndef b.content a.content h k f e) in
      let last = restore_image_lem (stored_image m b) (set_content m c b) in
      (ap (λ r. r.1) found ∙ last.0, ap (λ r. r.0.content) found ∙ last.1)
