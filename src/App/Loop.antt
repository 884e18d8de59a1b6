-- ===== src/App/Loop.antt =====
-- The main loop of app/mod.rs: `tick`, the status line, and the decision to sleep.
use paper_name_plate.Base.{ℕ, ◌+◌, ◌*◌, ◌%◌, ◌^◌, Bool, true, false, not, ◌&&◌, ◌||◌, set}
use paper_name_plate.Base.{ltb, ◌==◌, if◌then◌else◌}
use paper_name_plate.Base.Io.{pure, ◌>>=◌, ◌>>◌, update, gets}
use paper_name_plate.Nfc.Setup.{status}
use paper_name_plate.Power.{set_frontlight}
use paper_name_plate.Tag.States.{is_off}
use paper_name_plate.App.{
  Machine, App, AppIo, Done, on_bus, on_nfc, elapsed_ms, delay_ms, idle_sleep_ms,
}
use paper_name_plate.App.Display.{manage_epd_sleep, manage_epd_sleep_now}
use paper_name_plate.App.Inputs.{handle_touch, handle_buttons, switch_mode}
use paper_name_plate.App.Tags.{is_tag, run_emulation_slice, poll_nfc}

abbrev pub idle_poll_ms : ℕ
idle_poll_ms = 500

abbrev pub active_poll_ms : ℕ
active_poll_ms = 200

abbrev pub idle_tick_ms : ℕ
idle_tick_ms = 5

abbrev pub nfc_safety_poll_ms : ℕ
nfc_safety_poll_ms = 250

abbrev pub heartbeat_ms : ℕ
heartbeat_ms = 10000

abbrev pub doze_enabled : Bool
doze_enabled = true

abbrev pub doze_after_ms : ℕ
doze_after_ms = 120000

abbrev pub doze_min_uptime_ms : ℕ
doze_min_uptime_ms = 60000

abbrev pub deep_sleep_period_s : ℕ
deep_sleep_period_s = 6 * 3600

abbrev pub deep_sleep_test_s : ℕ
deep_sleep_test_s = 15

abbrev pub doze_magic : ℕ
doze_magic = 0xD02E_0001

module _ (m : Machine) where
  open m use {World, bus, now, nfc_irq_high, usb_frame, rtc_ms}

  -- `usb_host_active`: whether the frame counter moves within 4 ms.
  unfoldable pub usb_host_active : AppIo m Bool
  usb_host_active = do
    before ← gets (λ a. usb_frame a.world)
    idle_sleep_ms m 4
    after ← gets (λ a. usb_frame a.world)
    pure (not (before == after))

  -- The tests of `should_doze` in front of the one for a USB host.
  abbrev pub is_quiet : App m → Bool
  is_quiet a =
      doze_enabled
      && (a.emulate
          && (not a.touch_down
              && (is_off a.emu.state
                  && (ltb doze_min_uptime_ms (elapsed_ms m a a.boot)
                      && ltb doze_after_ms (elapsed_ms m a a.last_activity)))))

  unfoldable pub should_doze : AppIo m Bool
  unfolding usb_host_active
  should_doze = do
    a ← gets (λ a. a)
    (if a.doze_test
        then pure true
        else if is_quiet a
        then (usb_host_active >>= λ host. pure (not host))
        else pure false)

  unfoldable pub doze_diag_set : ℕ → ℕ → Done m
  doze_diag_set i v = update (λ a. record a { doze_diag = set (set a.doze_diag 0 doze_magic) i v })

  -- `deep_sleep`, up to the call of the hardware, which is given the seconds of the timer.
  unfoldable pub deep_sleep : AppIo m ℕ
  unfolding doze_diag_set
  deep_sleep = do
    a ← gets (λ a. a)
    doze_diag_set 1 20
    doze_diag_set 3 (rtc_ms a.world % 2 ^ 32)
    on_bus m (set_frontlight bus 0)
    manage_epd_sleep_now m
    delay_ms m 50
    pure (if a.doze_test then deep_sleep_test_s else deep_sleep_period_s)

  unfoldable pub note_heartbeat : Done m
  note_heartbeat = update (λ a. record a { hb_last = now a.world; hb_idle_us = a.idle_us })

  -- The status line itself is only logged; the status of the chip is read for it.
  unfoldable pub heartbeat : Done m
  unfolding note_heartbeat
  heartbeat = do
    a ← gets (λ a. a)
    (if ltb (elapsed_ms m a a.hb_last) heartbeat_ms
        then pure tt
        else note_heartbeat >> (if a.nfc then on_nfc m (status bus) >> pure tt else pure tt))

  unfoldable pub auto_switch : Done m
  auto_switch = do
    a ← gets (λ a. a)
    (if a.auto_ab && ltb 10000 (elapsed_ms m a a.auto_ab_since)
        then update (λ b. record b { auto_ab_since = now b.world }) >> switch_mode m
        else pure tt)

  unfoldable pub count_poll : Done m
  count_poll = update (λ a. record a { polls = (a.polls + 1) % 2 ^ 32 })

  -- Does the chip of the emulated tag want a slice of time?
  unfoldable pub wants_slice : App m → Bool
  wants_slice a =
      not a.emu_running
      || ((a.emu_running && not (is_off a.emu.state))
          || (nfc_irq_high a.world || ltb nfc_safety_poll_ms (elapsed_ms m a a.nfc_last_poll)))

  module _ (depth rounds : ℕ) (debug : Bool) where
    unfoldable pub tick_emulation : (allow : Bool) → ℕ → Done m
    unfolding wants_slice
    tick_emulation allow emu_ms = do
      a ← gets (λ a. a)
      (if not allow
          then idle_sleep_ms m 1
          else if wants_slice a
          then update (λ b. record b { nfc_last_poll = now b.world })
            >> run_emulation_slice m depth rounds debug emu_ms
          else idle_sleep_ms m idle_tick_ms)

    unfoldable pub tick_nfc : (allow : Bool) → ℕ → Done m
    unfolding tick_emulation count_poll
    tick_nfc allow emu_ms = do
      a ← gets (λ a. a)
      (if a.emulate
          then tick_emulation allow emu_ms >> count_poll
          else idle_sleep_ms m (if is_tag a.last_tag then active_poll_ms else idle_poll_ms)
            >> (count_poll >> poll_nfc m depth rounds debug))

    unfoldable pub tick : (allow : Bool) → ℕ → Done m
    unfolding tick_nfc auto_switch heartbeat
    tick allow emu_ms = do
      tick_nfc allow emu_ms
      handle_touch m
      handle_buttons m
      auto_switch
      manage_epd_sleep m
      heartbeat

  -- `tick_light` of app/ble.rs
  unfoldable pub tick_light : Done m
  tick_light = do handle_touch m; handle_buttons m; manage_epd_sleep m; idle_sleep_ms m 2
