-- ===== src/App/Store.antt =====
-- The content in app/mod.rs: what is adopted is served over NFC, kept in flash and drawn; and what
-- `run` restores.
pub mod Returns
pub mod Committed
pub mod Restored
pub mod Images
use paper_name_plate.Base.{
  ℕ, zero, suc, ◌+◌, List, [], ◌∷◌, Bool, true, false, not, ◌&&◌, Option, none, some,
}
use paper_name_plate.Base.{leb, if◌then◌else◌, length}
use paper_name_plate.Base.Results.{Result, ok, err}
use paper_name_plate.Base.Io.{Io, pure, fail, ◌>>=◌, ◌>>◌, update, gets}
use paper_name_plate.Text.Utf8.{Str, from_utf8_lossy}
use paper_name_plate.Plate.Image.{MonoImage}
use paper_name_plate.Plate.Content.{PlateContent}
use paper_name_plate.Plate.Draw.{draw}
use paper_name_plate.Plate.Plain.{Verdict, apply_plain}
use paper_name_plate.Plate.Ndef.Write.{to_ndef}
use paper_name_plate.Plate.Ndef.Read.{apply_ndef}
use paper_name_plate.Storage.Record.{load, save, load_image, save_image, clear_image}
use paper_name_plate.Tag.Memory.{Scan, found, absent, stuck, ndef, set_ndef}
use paper_name_plate.Panel.Driver.Refresh.{GrayMode, text, quality}
use paper_name_plate.Panel.FrameBuffer.{copy_from}
use paper_name_plate.App.{Machine, App, AppIo, Done, Stuck, out_of_rounds, on_flash, note_activity}
use paper_name_plate.App.Display.{
  image_keep_max, with_image, stored_image, draw_plate, trim_image, refresh_and_keep, wake_epd,
}
use paper_name_plate.App.Display.{set_fast_refreshes, epd_refresh, keep_displayed}

module _ (m : Machine) where
  open m use {World, flash, flash_of, fonts}

  abbrev pub set_content : PlateContent → App m → App m
  set_content c a = record a { content = c }

  -- `self.emu.set_ndef`, whose result is ignored
  abbrev pub served : List ℕ → App m → App m
  served msg a = record a {
    emu = record a.emu { tag = record a.emu.tag { memory = (set_ndef a.emu.tag.memory msg).0 } };
  }

  unfoldable pub serve_ndef : List ℕ → Done m
  serve_ndef msg = update (served msg)

  -- Whether the record was written is only logged.
  unfoldable pub save_content : List ℕ → Done m
  save_content msg = on_flash m (λ s. save flash s msg) >> pure tt

  unfoldable pub mark_image : Bool → Done m
  mark_image b = update (λ a. record a { image_in_flash = b })

  unfoldable pub keep_image : MonoImage → Done m
  unfolding mark_image
  keep_image img = do
    done ← on_flash m (λ s. save_image flash s img.width img.height img.bits)
    if done then mark_image true else pure tt

  -- A small image of the content goes to the image slot too.
  unfoldable pub keep_small_image : Option MonoImage → Done m
  unfolding keep_image
  keep_small_image none = pure tt
  keep_small_image (some img) =
      if leb (length img.bits) image_keep_max then keep_image img else pure tt

  unfoldable pub redraw_plate : Done m
  redraw_plate = update (draw_plate m)

  unfoldable pub commit_content : Done m
  unfolding serve_ndef save_content keep_small_image redraw_plate
  commit_content = do
    a ← gets (λ a. a)
    serve_ndef (to_ndef a.content)
    save_content (to_ndef a.content)
    keep_small_image a.content.image
    wake_epd m
    redraw_plate
    refresh_and_keep m text
    set_fast_refreshes m 1

  unfoldable pub put_image : Option MonoImage → Done m
  put_image i = update (λ a. record a { content = with_image i a.content })

  unfoldable pub draw_content : Done m
  draw_content = update (λ a. record a { fb = draw fonts a.content a.fb })

  unfoldable pub trim : Done m
  trim = update (trim_image m)

  unfoldable pub on_ble_image : MonoImage → Done m
  unfolding serve_ndef save_content keep_image put_image draw_content trim
  on_ble_image img = do
    put_image none
    keep_image img
    put_image (some img)
    a ← gets (λ a. a)
    serve_ndef (to_ndef a.content)
    save_content (to_ndef a.content)
    wake_epd m
    draw_content
    trim
    refresh_and_keep m quality
    set_fast_refreshes m 1
    note_activity m

  -- `none` of `apply_ndef` is the end of its fuel, which no message meets.
  abbrev pub adopted : Option PlateContent → Done m
  adopted none = fail out_of_rounds
  adopted (some c) = update (set_content c)

  unfoldable pub adopt : List ℕ → Done m
  adopt msg = do a ← gets (λ a. a); adopted (apply_ndef msg a.content)

  unfoldable pub adopt_scan : Scan → Done m
  unfolding adopt
  adopt_scan (found msg) = adopt msg
  adopt_scan absent = pure tt
  adopt_scan stuck = fail out_of_rounds

  unfoldable pub on_tag_written : Done m
  unfolding adopt_scan commit_content
  on_tag_written = do a ← gets (λ a. a); adopt_scan (ndef a.emu.tag.memory); commit_content

  unfoldable pub adopt_text : PlateContent × Verdict → Done m
  unfolding commit_content
  adopt_text (c, Verdict.accepted) = update (set_content c) >> commit_content
  adopt_text (c, Verdict.text_too_long) = pure tt
  adopt_text (c, Verdict.url_too_long) = pure tt

  unfoldable pub on_ble_content : List ℕ → Done m
  unfolding adopt_text
  on_ble_content bytes = do
    a ← gets (λ a. a)
    adopt_text (apply_plain a.content (from_utf8_lossy bytes))
    note_activity m

  unfoldable pub on_clear_image : Done m
  unfolding put_image mark_image commit_content
  on_clear_image = do
    put_image none
    mark_image false
    on_flash m (λ s. clear_image flash s)
    commit_content
    note_activity m

  -- The start of `run`: the content that the flash keeps, on top of the one that the application
  -- begins with, and the image.
  abbrev pub restore_image : Option MonoImage → Done m
  restore_image none = pure tt
  restore_image (some img) =
      update (λ a. record a { content = with_image (some img) a.content; image_in_flash = true })

  abbrev pub restore_content : Option (List ℕ) → Done m
  restore_content none = pure tt
  restore_content (some msg) = adopt msg

  unfoldable pub restore : Done m
  unfolding adopt
  restore = do
    a ← gets (λ a. a)
    restore_content (load flash (flash_of a.world))
    b ← gets (λ b. b)
    restore_image (stored_image m b)

  -- The first screen, unless the panel still shows it, and the message that is served.
  unfoldable pub first_screen : Done m
  unfolding draw_content trim serve_ndef
  first_screen = do
    draw_content
    trim
    woke ← gets (λ a. a.woke_from_deep_sleep)
    if woke then pure tt else (epd_refresh m quality >> pure tt)
    keep_displayed m
    a ← gets (λ a. a)
    serve_ndef (to_ndef a.content)
