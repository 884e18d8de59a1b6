-- ===== src/App/Whole.antt =====
-- The image of the content, in whatever the application does: it has all its rows, so that drawing it
-- stays within its bits.
pub mod Controls
pub mod Ticks
pub mod Sessions
use paper_name_plate.Base.{
  ℕ, zero, suc, ◌≡◌, refl, List, [], ◌∷◌, Bool, true, false, not, ◌&&◌, ◌||◌, if◌then◌else◌,
}
use paper_name_plate.Base.{Option, none, some, Option-cases, Bool-cases, inl, inr}
use paper_name_plate.Base.Results.{Result, ok, err}
use paper_name_plate.Base.Io.{
  Io, pure, fail, ◌>>=◌, ◌>>◌, update, gets, Keeps, Keeps-update, Keeps-bind, Keeps-gets-bind,
  continue-state, keeps_rules,
}
use paper_name_plate.Plate.Image.{MonoImage}
use paper_name_plate.Plate.Image.Codec.{IsImage}
use paper_name_plate.Plate.Content.{PlateContent}
use paper_name_plate.Plate.Plain.{Verdict, accepted, text_too_long, url_too_long, apply_plain}
use paper_name_plate.Plate.Ndef.Read.{apply_ndef}
use paper_name_plate.Plate.Ndef.Images.{
  IsWhole, none-IsWhole, some-IsWhole, apply_ndef-IsWhole, decode_owned-IsWhole,
  apply_plain-IsWhole,
}
use paper_name_plate.Text.Utf8.{from_utf8_lossy}
use paper_name_plate.Nfc.Driver.{Chip}
use paper_name_plate.Tag.States.{Emulator}
use paper_name_plate.Tag.Memory.{Scan, found, absent, stuck}
use paper_name_plate.Panel.Driver.Refresh.{GrayMode}
use paper_name_plate.App.{
  Machine, App, AppIo, Done, Stuck, on_bus, on_emu, on_nfc, on_epd, on_flash, delay_ms,
  idle_sleep_ms,
}
use paper_name_plate.App.Display.{
  with_image, exceeds, trimmed, trim_image, epd_refresh, wake_epd, refresh_and_keep, panel_to_sleep,
  manage_epd_sleep_now, manage_epd_sleep, refresh_fast, refresh_panel_region,
}
use paper_name_plate.App.Kept.{
  On, calls_keep, note_activity-On, refresh_attempts-On, refresh_and_keep-On, wake_epd-On,
}
use paper_name_plate.App.Store.{
  set_content, serve_ndef, save_content, keep_image, mark_image, keep_small_image, commit_content,
  put_image, trim, on_ble_image, adopt, adopt_scan, adopt_text, on_tag_written, on_ble_content,
  on_clear_image,
}

trimmed-IsWhole : (b : Bool) (c : PlateContent) → IsWhole c.image → IsWhole (trimmed b c).image
trimmed-IsWhole b c h = elim (Bool-cases (b && exceeds c.image)) [
  | inl e ↦ rw e none-IsWhole
  | inr e ↦ rw e h
]

module _ (m : Machine) where
  open m use {World, bus, flash}

  -- The content's image, if it has one, is whole.
  abbrev pub Shows : flash.State → PlateContent → List ℕ → Bool → Type 0
  Shows s c u i = IsWhole c.image

  pub on_nfc-Shows : {E A : Type 0} (k : Io (Chip bus) E A) → Keeps (On m Shows) (on_nfc m k)
  unfolding on_nfc
  on_nfc-Shows k = record { keep = λ a h. h }

  pub on_emu-Shows : {E A : Type 0} (k : Io (Emulator bus) E A) → Keeps (On m Shows) (on_emu m k)
  unfolding on_emu
  on_emu-Shows k = record { keep = λ a h. h }

  pub on_flash-Shows : (k : flash.State → flash.State × Bool) → Keeps (On m Shows) (on_flash m k)
  unfolding on_flash
  on_flash-Shows k = record { keep = λ a h. h }

  pub idle_sleep_ms-Shows : (ms : ℕ) → Keeps (On m Shows) (idle_sleep_ms m ms)
  unfolding idle_sleep_ms
  idle_sleep_ms-Shows ms = Keeps-update _ (λ a h. h)

  pub serve_ndef-Shows : (msg : List ℕ) → Keeps (On m Shows) (serve_ndef m msg)
  unfolding serve_ndef
  serve_ndef-Shows msg = Keeps-update _ (λ a h. h)

  pub mark_image-Shows : (b : Bool) → Keeps (On m Shows) (mark_image m b)
  unfolding mark_image
  mark_image-Shows b = Keeps-update _ (λ a h. h)

  put_image-Shows : (i : Option MonoImage) → IsWhole i → Keeps (On m Shows) (put_image m i)
  unfolding put_image
  put_image-Shows i v = Keeps-update _ (λ a h. v)

  pub trim-Shows : Keeps (On m Shows) (trim m)
  unfolding trim trim_image
  trim-Shows = Keeps-update _ (λ a h. trimmed-IsWhole a.image_in_flash a.content h)

  pub ruleset calls_show = (
    calls_keep, refresh_and_keep-On, wake_epd-On, on_nfc-Shows, on_emu-Shows, on_flash-Shows,
    idle_sleep_ms-Shows, serve_ndef-Shows, mark_image-Shows, trim-Shows,
  )

  pub delay_ms-Shows : (ms : ℕ) → Keeps (On m Shows) (delay_ms m ms)
  unfolding delay_ms
  delay_ms-Shows ms = search calls_show depth 20

  keep_image-Shows : (img : MonoImage) → Keeps (On m Shows) (keep_image m img)
  unfolding keep_image
  keep_image-Shows img = search calls_show depth 20

  keep_small_image-Shows : (i : Option MonoImage) → Keeps (On m Shows) (keep_small_image m i)
  unfolding keep_small_image
  keep_small_image-Shows none = search calls_show depth 20
  keep_small_image-Shows (some img) = search (calls_show, keep_image-Shows) depth 20

  commit_content-Shows : Keeps (On m Shows) (commit_content m)
  unfolding commit_content save_content
  commit_content-Shows = search (calls_show, keep_small_image-Shows) depth 30

  pub on_ble_image-Shows : (img : MonoImage) → IsImage img → Keeps (On m Shows) (on_ble_image m img)
  unfolding on_ble_image save_content ◌>>=◌ update
  on_ble_image-Shows img v =
      let whole : IsWhole (some img) = some-IsWhole img v in
      search (calls_show, keep_image-Shows, put_image-Shows, none-IsWhole, whole) depth 40

  adopt-Shows : (msg : List ℕ) → Keeps (On m Shows) (adopt m msg)
  unfolding adopt ◌>>=◌ gets update fail
  adopt-Shows msg = record {
    keep = λ a h. elim (Option-cases (apply_ndef msg a.content)) [
      | inl e ↦ rw e h
      | inr (c, e) ↦ rw e (apply_ndef-IsWhole msg a.content c h e)
    ];
  }

  adopt_scan-Shows : (s : Scan) → Keeps (On m Shows) (adopt_scan m s)
  unfolding adopt_scan
  adopt_scan-Shows (found msg) = adopt-Shows msg
  adopt_scan-Shows absent = search calls_show depth 20
  adopt_scan-Shows stuck = search calls_show depth 20

  pub on_tag_written-Shows : Keeps (On m Shows) (on_tag_written m)
  unfolding on_tag_written
  on_tag_written-Shows = search (calls_show, adopt_scan-Shows, commit_content-Shows) depth 20

  adopt_text-Shows :
      (r : PlateContent × Verdict) → IsWhole r.0.image → Keeps (On m Shows) (adopt_text m r)
  unfolding adopt_text
  adopt_text-Shows (c, accepted) h =
      search
        (
          calls_show,
          Keeps-update {P = On m Shows} (set_content m c) (λ a k. h),
          commit_content-Shows,
        )
        depth 20
  adopt_text-Shows (c, text_too_long) h = search calls_show depth 20
  adopt_text-Shows (c, url_too_long) h = search calls_show depth 20

  pub on_ble_content-Shows : (bytes : List ℕ) → Keeps (On m Shows) (on_ble_content m bytes)
  unfolding on_ble_content
  on_ble_content-Shows bytes =
      let text = from_utf8_lossy bytes in
      Keeps-gets-bind _ _ (λ a h.
        (Keeps-bind _ _
            (adopt_text-Shows (apply_plain a.content text) (apply_plain-IsWhole a.content text h))
            (λ u. note_activity-On m Shows)).keep
          a h)

  pub on_clear_image-Shows : Keeps (On m Shows) (on_clear_image m)
  unfolding on_clear_image
  on_clear_image-Shows =
      search (calls_show, put_image-Shows, none-IsWhole, commit_content-Shows) depth 30
