-- ===== src/App/Start.antt =====
-- The start of the application: `App::new` and `run` of app/mod.rs up to the main loop.
use paper_name_plate.Base.{ℕ, List, [], ◌∷◌, Bool, true, false, none, if◌then◌else◌}
use paper_name_plate.Base.{replicate}
use paper_name_plate.Base.Io.{pure, ◌>>=◌, ◌>>◌, update, gets}
use paper_name_plate.Nfc.Driver.{Chip}
use paper_name_plate.Plate.Content.{demo}
use paper_name_plate.Panel.Driver.{Screen}
use paper_name_plate.Panel.FrameBuffer
use paper_name_plate.Power.{init_frontlight, set_frontlight}
use paper_name_plate.Tag.States
use paper_name_plate.App.{Machine, App, Done, on_bus, delay_ms}
use paper_name_plate.App.Store.{restore, first_screen}
use paper_name_plate.App.Loop.{doze_diag_set}

-- The UID of the emulated tag.
abbrev pub plate_uid : List ℕ
plate_uid = 0x04 ∷ 0x50 ∷ 0x41 ∷ 0x50 ∷ 0x45 ∷ 0x52 ∷ 0x01 ∷ []

module _ (m : Machine) where
  open m use {World, bus, wire, now}

  -- `App::new`, over a board that was brought up: the drivers' states, and whether it has the chips.
  abbrev pub new_app : World → Screen wire → Chip bus → (nfc touch : Bool) → App m
  new_app w screen chip nfc touch = record {
    world = w;
    epd = screen;
    nfc = nfc;
    touch = touch;
    fb = FrameBuffer.new;
    displayed = FrameBuffer.new;
    last_tag = none;
    tag_count = 0;
    fast_refreshes = 0;
    last_activity = now w;
    boot = now w;
    polls = 0;
    epd_sleeping = false;
    frontlight_on = false;
    touch_down = false;
    field_always_on = false;
    btn_a_down = false;
    btn_a_since = now w;
    btn_a_armed = false;
    auto_ab = false;
    auto_ab_since = now w;
    emulate = true;
    emu = States.new bus plate_uid chip;
    emu_running = false;
    emu_last_field = now w;
    content = demo;
    nfc_last_poll = now w;
    hb_last = now w;
    hb_idle_us = 0;
    doze_test = false;
    woke_from_deep_sleep = false;
    image_in_flash = false;
    idle_us = 0;
    doze_diag = replicate 8 0;
  }

  -- The front light is set up, and blinks if this is no wake-up.
  unfoldable pub start_frontlight : Done m
  start_frontlight = do
    on_bus m (init_frontlight bus 5000)
    woke ← gets (λ a. a.woke_from_deep_sleep)
    if woke then pure tt else (on_bus m (set_frontlight bus 64) >> delay_ms m 300)
    on_bus m (set_frontlight bus 0)
    pure tt

  unfoldable pub note_wake : Bool → Done m
  note_wake woke = update (λ a. record a { woke_from_deep_sleep = woke; doze_diag = replicate 8 0 })

  -- `run` up to the main loop; `woke` says whether the reset was a wake-up from deep sleep.
  unfoldable pub start_app : Bool → Done m
  unfolding start_frontlight note_wake
  start_app woke = do
    note_wake woke
    if woke then doze_diag_set m 1 30 else pure tt
    restore m
    first_screen m
    start_frontlight
