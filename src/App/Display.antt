-- ===== src/App/Display.antt =====
-- The panel in app/mod.rs: drawing the plate, refreshes, and the sleep of the panel.
use paper_name_plate.Base.{ℕ, zero, suc, ◌+◌, ◌%◌, ◌^◌, List, Bool, true, false, not, ◌&&◌}
use paper_name_plate.Base.{Option, none, some, ltb, ◌==◌, if◌then◌else◌, length}
use paper_name_plate.Base.Io.{pure, ◌>>=◌, ◌>>◌, update, gets}
use paper_name_plate.Board.{epd_power_on, epd_hard_reset}
use paper_name_plate.Plate.Image.{MonoImage, decode_owned}
use paper_name_plate.Plate.Content.{PlateContent}
use paper_name_plate.Plate.Draw.{draw}
use paper_name_plate.Plate.Ndef.Write.{has_image}
use paper_name_plate.Storage.Record.{load_image}
use paper_name_plate.Panel.FrameBuffer.{copy_from}
use paper_name_plate.Panel.FrameBuffer.Regions.{native_region, apply_mono_region}
use paper_name_plate.Panel.Driver.{init_panel}
use paper_name_plate.Panel.Driver.Refresh.{
  GrayMode, text, display_gray4, refresh_fastest, deep_sleep,
}
use paper_name_plate.App.Ui.{panel_x, panel_y, panel_w, panel_h}
use paper_name_plate.App.{Machine, App, AppIo, Done, on_bus, on_epd, try_epd, elapsed_ms}

abbrev pub epd_idle_sleep_ms : ℕ
epd_idle_sleep_ms = 60000

abbrev pub fastest_per_full : ℕ
fastest_per_full = 10

abbrev pub image_keep_max : ℕ
image_keep_max = 8192

abbrev pub with_image : Option MonoImage → PlateContent → PlateContent
with_image i c = record c { image = i }

-- `is_some_and(|i| i.bits.len() > IMAGE_KEEP_MAX)`
abbrev pub exceeds : Option MonoImage → Bool
exceeds none = false
exceeds (some i) = ltb image_keep_max (length i.bits)

-- `load_image(..).and_then(MonoImage::decode_owned)`
abbrev pub decoded : Option (List ℕ) → Option MonoImage
decoded none = none
decoded (some bytes) = decode_owned bytes

-- The content to draw and the content to keep, by whether an image is stored.
abbrev pub filled : (in_flash : Bool) → (stored : Option MonoImage) → PlateContent → PlateContent
filled in_flash stored c = if not (has_image c.image) && in_flash then with_image stored c else c

abbrev pub trimmed : (in_flash : Bool) → PlateContent → PlateContent
trimmed in_flash c = if in_flash && exceeds c.image then with_image none c else c

module _ (m : Machine) where
  open m use {World, bus, wire, flash, bus_of, wire_of, flash_of, now, fonts}

  abbrev pub stored_image : App m → Option MonoImage
  stored_image a = decoded (load_image flash (flash_of a.world))

  -- The content that is drawn: an image that is not at hand is loaded for the drawing.
  unfoldable pub shown : App m → PlateContent
  shown a = filled a.image_in_flash (stored_image a) a.content

  -- `draw_plate`: the content is as it was behind it.
  unfoldable pub draw_plate : App m → App m
  unfolding shown
  draw_plate a = record a { fb = draw fonts (shown a) a.fb }

  unfoldable pub trim_image : App m → App m
  trim_image a = record a { content = trimmed a.image_in_flash a.content }

  unfoldable pub set_asleep : Bool → Done m
  set_asleep b = update (λ a. record a { epd_sleeping = b })

  -- A refresh; if it fails, the panel is brought up again, and then comes `again`.
  unfoldable pub refresh_or : GrayMode → AppIo m Bool → AppIo m Bool
  unfolding set_asleep
  refresh_or mode again = do
    a ← gets (λ a. a)
    done ← try_epd m (display_gray4 wire a.fb mode)
    (if done
        then pure true
        else (on_bus m (epd_power_on bus)
            >> on_epd m (init_panel wire)
            >> set_asleep false
            >> again))

  -- The attempts of `epd_refresh` that are left: whether one succeeded.
  unfoldable pub refresh_attempts : ℕ → GrayMode → AppIo m Bool
  unfolding refresh_or
  refresh_attempts zero mode = pure false
  refresh_attempts (suc n) mode = refresh_or mode (refresh_attempts n mode)

  unfoldable pub epd_refresh : GrayMode → AppIo m Bool
  unfolding refresh_attempts
  epd_refresh mode = refresh_attempts 2 mode

  -- `displayed.copy_from(fb)`
  unfoldable pub keep_displayed : Done m
  keep_displayed = update (λ a. record a { displayed = copy_from a.displayed a.fb })

  -- A refresh, and a copy of what is on the panel if it succeeded.
  unfoldable pub refresh_and_keep : GrayMode → Done m
  unfolding epd_refresh keep_displayed
  refresh_and_keep mode = do done ← epd_refresh mode; if done then keep_displayed else pure tt

  unfoldable pub panel_to_sleep : Done m
  unfolding set_asleep
  panel_to_sleep = on_epd m (deep_sleep wire) >> set_asleep true

  unfoldable pub manage_epd_sleep_now : Done m
  unfolding panel_to_sleep
  manage_epd_sleep_now = do
    asleep ← gets (λ a. a.epd_sleeping)
    if asleep then pure tt else panel_to_sleep

  unfoldable pub manage_epd_sleep : Done m
  unfolding panel_to_sleep
  manage_epd_sleep = do
    due ← gets (λ a. not a.epd_sleeping && ltb epd_idle_sleep_ms (elapsed_ms m a a.last_activity))
    if due then panel_to_sleep else pure tt

  unfoldable pub set_fast_refreshes : ℕ → Done m
  set_fast_refreshes n = update (λ a. record a { fast_refreshes = n })

  unfoldable pub wake_epd : Done m
  unfolding set_asleep set_fast_refreshes
  wake_epd = do
    asleep ← gets (λ a. a.epd_sleeping)
    (if asleep
        then on_bus m (epd_hard_reset bus)
          >> on_epd m (init_panel wire)
          >> set_asleep false
          >> set_fast_refreshes 0
        else pure tt)

  -- The differential update of the tag panel, on the region in the order of the memory.
  unfoldable pub refresh_fast : Done m
  refresh_fast = do
    a ← gets (λ a. a)
    let (x0, w, y0, h) = native_region panel_x panel_y panel_w panel_h
    done ← try_epd m (refresh_fastest wire a.fb.msb a.displayed.lsb a.displayed.msb x0 w y0 h)
    (if done
        then update (λ b. record b { displayed = apply_mono_region b.fb.msb x0 w y0 h b.displayed })
        else pure tt)

  unfoldable pub refresh_panel_region : Done m
  unfolding refresh_and_keep refresh_fast set_fast_refreshes
  refresh_panel_region = do
    count ← gets (λ a. a.fast_refreshes)
    if count % fastest_per_full == 0 then refresh_and_keep text else refresh_fast
    set_fast_refreshes ((count + 1) % 2 ^ 32)
