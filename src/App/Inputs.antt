-- ===== src/App/Inputs.antt =====
-- The touch panel and the buttons in app/mod.rs.
pub mod Holds
use paper_name_plate.Base.{
  ℕ, ◌+◌, ◌-◌, ◌*◌, ◌/◌, List, [], ◌∷◌, Bool, true, false, not, ◌&&◌, ◌||◌, ltb, if◌then◌else◌,
}
use paper_name_plate.Base.Results.{Result, ok, err}
use paper_name_plate.Base.Io.{Io, pure, ◌>>=◌, ◌>>◌, update, gets}
use paper_name_plate.Touch.{TouchPoint, read_points}
use paper_name_plate.Power.{set_frontlight}
use paper_name_plate.Nfc.Setup.{configure_nfca}
use paper_name_plate.Tag.States.Update.{stop}
use paper_name_plate.App.{
  Machine, App, AppIo, Done, Stuck, on_bus, on_emu, on_nfc, elapsed_ms, note_activity,
}

module _ (m : Machine) where
  open m use {World, bus, now, tp_int_high, button_a_low, button_b_low}

  unfoldable pub set_touch_down : Bool → Done m
  set_touch_down b = update (λ a. record a { touch_down = b })

  -- The start of a touch switches the front light.
  unfoldable pub start_touch : Done m
  unfolding set_touch_down
  start_touch = do
    set_touch_down true
    update (λ a. record a { frontlight_on = not a.frontlight_on })
    a ← gets (λ a. a)
    on_bus m (set_frontlight bus (if a.frontlight_on then 128 else 0))
    note_activity m

  abbrev pub after_read : Bool → Result bus.BusError (List TouchPoint) → Done m
  after_read down (ok (p ∷ ps)) = if down then pure tt else start_touch
  after_read down (ok []) = set_touch_down false
  after_read down (err e) = pure tt

  unfoldable pub handle_touch : Done m
  unfolding start_touch set_touch_down
  handle_touch = do
    a ← gets (λ a. a)
    (if (not a.touch_down && tp_int_high a.world) || not a.touch
        then pure tt
        else (do pts ← on_bus m (read_points bus); after_read a.touch_down pts))

  unfoldable pub set_running : Bool → Done m
  set_running b = update (λ a. record a { emu_running = b })

  unfoldable pub stop_emulation : Done m
  unfolding set_running
  stop_emulation = do
    a ← gets (λ a. a)
    if a.emu_running && a.nfc then on_emu m (stop bus) >> set_running false else pure tt

  -- The end of the emulation: the chip becomes a reader.
  unfoldable pub become_reader : Done m
  unfolding stop_emulation
  become_reader = do
    stop_emulation
    a ← gets (λ a. a)
    if a.nfc then on_nfc m (configure_nfca bus) >> pure tt else pure tt

  unfoldable pub switch_mode : Done m
  unfolding become_reader
  switch_mode = do
    update (λ a. record a { emulate = not a.emulate })
    a ← gets (λ a. a)
    if a.emulate then pure tt else become_reader

  unfoldable pub set_armed : Bool → Done m
  set_armed b = update (λ a. record a { btn_a_armed = b })

  unfoldable pub press_button : Done m
  press_button = update (λ a. record a { btn_a_since = now a.world; btn_a_armed = true })

  unfoldable pub set_btn_a_down : Bool → Done m
  set_btn_a_down b = update (λ a. record a { btn_a_down = b })

  unfoldable pub note_buttons : Bool → Done m
  note_buttons down = do
    a ← gets (λ a. a)
    if down || button_b_low a.world then note_activity m else pure tt

  unfoldable pub start_press : Bool → Done m
  unfolding press_button
  start_press down = do
    a ← gets (λ a. a)
    if down && not a.btn_a_down then press_button else pure tt

  -- Is the hold of the button due to switch the mode?
  abbrev pub is_due : App m → Bool
  is_due a = a.btn_a_down && (a.btn_a_armed && ltb 1000 (elapsed_ms m a a.btn_a_since))

  unfoldable pub hold_button : Bool → Done m
  unfolding switch_mode set_armed
  hold_button down = do
    a ← gets (λ a. a)
    if down && is_due a then set_armed false >> switch_mode else pure tt

  -- A hold of button A for more than a second switches the mode, once in a press.
  unfoldable pub handle_buttons : Done m
  unfolding note_buttons start_press hold_button set_btn_a_down
  handle_buttons = do
    down ← gets (λ a. button_a_low a.world)
    note_buttons down
    start_press down
    hold_button down
    set_btn_a_down down
