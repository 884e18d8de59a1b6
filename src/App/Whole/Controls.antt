-- ===== src/App/Whole/Controls.antt =====
-- The image of the content under the touch panel, the buttons and the status line of app/mod.rs, and
-- at the start.
use paper_name_plate.Base.{ℕ, List, [], ◌∷◌, Bool, false}
use paper_name_plate.Base.{Option, none, some}
use paper_name_plate.Base.Results.{Result, ok, err}
use paper_name_plate.Base.Io.{◌>>=◌, update, gets, Keeps, Keeps-update}
use paper_name_plate.Plate.Image.{MonoImage}
use paper_name_plate.Plate.Ndef.Images.{IsWhole, none-IsWhole, decode_owned-IsWhole}
use paper_name_plate.Touch.{TouchPoint}
use paper_name_plate.App.{Machine, try_epd}
use paper_name_plate.App.Display.{
  panel_to_sleep, manage_epd_sleep, refresh_fast, refresh_panel_region, decoded, epd_refresh,
}
use paper_name_plate.App.Kept.{On, refresh_attempts-On}
use paper_name_plate.App.Store.{restore, restore_image, restore_content, first_screen}
use paper_name_plate.App.Inputs.{
  set_touch_down, start_touch, after_read, handle_touch, set_running, stop_emulation, become_reader,
  switch_mode, set_armed, press_button, set_btn_a_down, note_buttons, start_press, hold_button,
  handle_buttons,
}
use paper_name_plate.App.Loop.{
  usb_host_active, should_doze, doze_diag_set, note_heartbeat, heartbeat, auto_switch, count_poll,
  tick_light,
}
use paper_name_plate.App.Whole.{Shows, calls_show, delay_ms-Shows, adopt-Shows}
use paper_name_plate.App.Start.{note_wake, start_frontlight, start_app}

pub decoded-IsWhole : (o : Option (List ℕ)) → IsWhole (decoded o)
decoded-IsWhole none = none-IsWhole
decoded-IsWhole (some bytes) = decode_owned-IsWhole bytes

module _ (m : Machine) where
  open m use {bus, flash}

  pub refresh_panel_region-Shows : Keeps (On m (Shows m)) (refresh_panel_region m)
  unfolding refresh_panel_region refresh_fast ◌>>=◌ gets try_epd update
  refresh_panel_region-Shows = search calls_show depth 30

  pub manage_epd_sleep-Shows : Keeps (On m (Shows m)) (manage_epd_sleep m)
  unfolding manage_epd_sleep panel_to_sleep
  manage_epd_sleep-Shows = search calls_show depth 30

  set_touch_down-Shows : (b : Bool) → Keeps (On m (Shows m)) (set_touch_down m b)
  unfolding set_touch_down
  set_touch_down-Shows b = Keeps-update _ (λ a h. h)

  start_touch-Shows : Keeps (On m (Shows m)) (start_touch m)
  unfolding start_touch ◌>>=◌ update
  start_touch-Shows = search (calls_show, set_touch_down-Shows) depth 30

  after_read-Shows :
      (down : Bool) (r : Result bus.BusError (List TouchPoint))
      → Keeps (On m (Shows m)) (after_read m down r)
  after_read-Shows down (ok (p ∷ ps)) = search (calls_show, start_touch-Shows) depth 30
  after_read-Shows down (ok []) = set_touch_down-Shows false
  after_read-Shows down (err e) = search calls_show depth 10

  pub handle_touch-Shows : Keeps (On m (Shows m)) (handle_touch m)
  unfolding handle_touch
  handle_touch-Shows = search (calls_show, after_read-Shows) depth 30

  pub set_running-Shows : (b : Bool) → Keeps (On m (Shows m)) (set_running m b)
  unfolding set_running
  set_running-Shows b = Keeps-update _ (λ a h. h)

  become_reader-Shows : Keeps (On m (Shows m)) (become_reader m)
  unfolding become_reader stop_emulation
  become_reader-Shows = search (calls_show, set_running-Shows) depth 30

  switch_mode-Shows : Keeps (On m (Shows m)) (switch_mode m)
  unfolding switch_mode ◌>>=◌ update
  switch_mode-Shows = search (calls_show, become_reader-Shows) depth 30

  set_armed-Shows : (b : Bool) → Keeps (On m (Shows m)) (set_armed m b)
  unfolding set_armed
  set_armed-Shows b = Keeps-update _ (λ a h. h)

  press_button-Shows : Keeps (On m (Shows m)) (press_button m)
  unfolding press_button
  press_button-Shows = Keeps-update _ (λ a h. h)

  set_btn_a_down-Shows : (b : Bool) → Keeps (On m (Shows m)) (set_btn_a_down m b)
  unfolding set_btn_a_down
  set_btn_a_down-Shows b = Keeps-update _ (λ a h. h)

  pub handle_buttons-Shows : Keeps (On m (Shows m)) (handle_buttons m)
  unfolding handle_buttons note_buttons start_press hold_button
  handle_buttons-Shows =
      search
        (calls_show, set_armed-Shows, press_button-Shows, set_btn_a_down-Shows, switch_mode-Shows)
        depth 40

  note_heartbeat-Shows : Keeps (On m (Shows m)) (note_heartbeat m)
  unfolding note_heartbeat
  note_heartbeat-Shows = Keeps-update _ (λ a h. h)

  pub heartbeat-Shows : Keeps (On m (Shows m)) (heartbeat m)
  unfolding heartbeat
  heartbeat-Shows = search (calls_show, note_heartbeat-Shows) depth 30

  pub auto_switch-Shows : Keeps (On m (Shows m)) (auto_switch m)
  unfolding auto_switch ◌>>=◌ update
  auto_switch-Shows = search (calls_show, switch_mode-Shows) depth 30

  pub count_poll-Shows : Keeps (On m (Shows m)) (count_poll m)
  unfolding count_poll
  count_poll-Shows = Keeps-update _ (λ a h. h)

  pub tick_light-Shows : Keeps (On m (Shows m)) (tick_light m)
  unfolding tick_light
  tick_light-Shows =
      search (calls_show, handle_touch-Shows, handle_buttons-Shows, manage_epd_sleep-Shows) depth 30

  pub should_doze-Shows : Keeps (On m (Shows m)) (should_doze m)
  unfolding should_doze usb_host_active
  should_doze-Shows = search calls_show depth 30

  pub doze_diag_set-Shows : (i v : ℕ) → Keeps (On m (Shows m)) (doze_diag_set m i v)
  unfolding doze_diag_set
  doze_diag_set-Shows i v = Keeps-update _ (λ a h. h)

  restore_image-Shows :
      (i : Option MonoImage) → IsWhole i → Keeps (On m (Shows m)) (restore_image m i)
  restore_image-Shows none v = search (calls_show) depth 10
  restore_image-Shows (some img) v = Keeps-update _ (λ a h. v)

  restore_content-Shows : (o : Option (List ℕ)) → Keeps (On m (Shows m)) (restore_content m o)
  restore_content-Shows none = search (calls_show) depth 10
  restore_content-Shows (some msg) = adopt-Shows m msg

  restore-Shows : Keeps (On m (Shows m)) (restore m)
  unfolding restore
  restore-Shows =
      search (calls_show, restore_content-Shows, restore_image-Shows, decoded-IsWhole) depth 30

  first_screen-Shows : Keeps (On m (Shows m)) (first_screen m)
  unfolding first_screen epd_refresh
  first_screen-Shows = search (calls_show, refresh_attempts-On) depth 30

  note_wake-Shows : (woke : Bool) → Keeps (On m (Shows m)) (note_wake m woke)
  unfolding note_wake
  note_wake-Shows woke = Keeps-update _ (λ a h. h)

  pub start_app-Shows : (woke : Bool) → Keeps (On m (Shows m)) (start_app m woke)
  unfolding start_app start_frontlight
  start_app-Shows woke =
      search
        (
          calls_show, note_wake-Shows, doze_diag_set-Shows, restore-Shows, first_screen-Shows,
          delay_ms-Shows,
        )
        depth 40
