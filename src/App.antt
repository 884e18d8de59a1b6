-- ===== src/App.antt =====
-- app/mod.rs: the application's state, and its calls of the peripherals.
pub mod Ui
pub mod Display
pub mod Store
pub mod Kept
pub mod Inputs
pub mod Tags
pub mod Loop
pub mod Session
pub mod Start
pub mod Whole
use paper_name_plate.Base.{
  ℕ, zero, suc, ◌+◌, ◌-◌, ◌*◌, ◌/◌, ◌%◌, ◌^◌, ◌≡◌, List, [], ◌∷◌, Bool, true, false, not, Option,
}
use paper_name_plate.Base.Results.{Result, ok, err}
use paper_name_plate.Base.Io.{Io, pure, ◌>>=◌, ◌>>◌, update, gets}
use paper_name_plate.Bus.{Bus}
use paper_name_plate.Panel.Driver.{Wire, Screen, PanelIo}
use paper_name_plate.Panel.FrameBuffer.{FrameBuffer}
use paper_name_plate.Storage.Flash.{Flash}
use paper_name_plate.Nfc.Driver.{Chip}
use paper_name_plate.Nfc.Poll.{NfcaTag}
use paper_name_plate.Tag.States.{Emulator}
use paper_name_plate.Plate.Content.{PlateContent}
use paper_name_plate.Plate.Draw.{Fonts}
use paper_name_plate.App.Ui.{Graphics}

-- What is outside the code: the bus, the wire of the panel and the flash, as parts of one world (a
-- reset line on the bus acts on the panel), the clock in microseconds, the scheduler's sleep, the
-- levels of the pins, the frame counter of the USB host, the clock of the RTC, and the setting of
-- text. Nothing but a call of the flash changes the flash.
pub record Machine : Type 1 where
  pub World : Type 0
  pub bus : Bus
  pub wire : Wire
  pub flash : Flash
  pub bus_of : World → bus.State
  pub wire_of : World → wire.State
  pub flash_of : World → flash.State
  pub with_bus : World → bus.State → World
  pub with_wire : World → wire.State → World
  pub with_flash : World → flash.State → World
  pub now : World → ℕ
  pub sleep_ms : ℕ → World → World
  pub tp_int_high : World → Bool
  pub nfc_irq_high : World → Bool
  pub button_a_low : World → Bool
  pub button_b_low : World → Bool
  pub usb_frame : World → ℕ
  pub rtc_ms : World → ℕ
  pub fonts : Fonts
  pub graphics : Graphics
  pub flash_of-with_flash : (w : World) (s : flash.State) → flash_of (with_flash w s) ≡ s
  pub flash_of-with_bus : (w : World) (s : bus.State) → flash_of (with_bus w s) ≡ flash_of w
  pub flash_of-with_wire : (w : World) (s : wire.State) → flash_of (with_wire w s) ≡ flash_of w
  pub flash_of-sleep_ms : (w : World) (ms : ℕ) → flash_of (sleep_ms ms w) ≡ flash_of w

-- No result of the code: a loop that ran out of the model's rounds, and a panic.
pub data Stuck : Type 0 where
  out_of_rounds panicked : Stuck

module _ (m : Machine) where
  open m use {
    World, bus, wire, flash, bus_of, wire_of, flash_of, with_bus, with_wire, with_flash, now,
    sleep_ms,
  }

  -- `App` with its board, and the two statics of app/mod.rs. The driver of the NFC chip stands in
  -- `emu`. The states of the bus and of the wire in `emu` and `epd` are set from the world before each
  -- use. `nfc` and `touch` say whether the board has the chip.
  pub record App : Type 0 where
    pub world : World
    pub epd : Screen wire
    pub nfc : Bool
    pub touch : Bool
    pub fb : FrameBuffer
    pub displayed : FrameBuffer
    pub last_tag : Option NfcaTag
    pub tag_count : ℕ
    pub fast_refreshes : ℕ
    pub last_activity : ℕ
    pub boot : ℕ
    pub polls : ℕ
    pub epd_sleeping : Bool
    pub frontlight_on : Bool
    pub touch_down : Bool
    pub field_always_on : Bool
    pub btn_a_down : Bool
    pub btn_a_since : ℕ
    pub btn_a_armed : Bool
    pub auto_ab : Bool
    pub auto_ab_since : ℕ
    pub emulate : Bool
    pub emu : Emulator bus
    pub emu_running : Bool
    pub emu_last_field : ℕ
    pub content : PlateContent
    pub nfc_last_poll : ℕ
    pub hb_last : ℕ
    pub hb_idle_us : ℕ
    pub doze_test : Bool
    pub woke_from_deep_sleep : Bool
    pub image_in_flash : Bool
    pub idle_us : ℕ
    pub doze_diag : List ℕ

  abbrev pub AppIo : Type 0 → Type 0
  AppIo A = Io App Stuck A

  abbrev pub Done : Type 0
  Done = AppIo (Unit {0})

  -- Calls of the drivers; what they return, an error too, is a value.
  unfoldable pub on_bus : {E A : Type 0} → Io bus.State E A → AppIo (Result E A)
  on_bus k a = let r = k (bus_of a.world) in (record a { world = with_bus a.world r.0 }, ok r.1)

  unfoldable pub on_emu : {E A : Type 0} → Io (Emulator bus) E A → AppIo (Result E A)
  on_emu k a =
      let r = k (record a.emu { chip = record a.emu.chip { bus = bus_of a.world } }) in
      (record a { world = with_bus a.world r.0.chip.bus; emu = r.0 }, ok r.1)

  -- The driver of the chip alone.
  unfoldable pub on_nfc : {E A : Type 0} → Io (Chip bus) E A → AppIo (Result E A)
  on_nfc k a =
      let r = k (record a.emu.chip { bus = bus_of a.world }) in
      (record a { world = with_bus a.world r.0.bus; emu = record a.emu { chip = r.0 } }, ok r.1)

  unfoldable pub on_epd : {A : Type 0} → PanelIo wire A → AppIo (Unit {0})
  on_epd k a =
      let r = k (record a.epd { wire = wire_of a.world }) in
      (record a { world = with_wire a.world r.0.wire; epd = r.0 }, ok tt)

  -- The same, with whether it succeeded.
  abbrev succeeded : {E A : Type 0} → Result E A → Bool
  succeeded (ok x) = true
  succeeded (err e) = false

  unfoldable pub try_epd : {A : Type 0} → PanelIo wire A → AppIo Bool
  try_epd k a =
      let r = k (record a.epd { wire = wire_of a.world }) in
      (record a { world = with_wire a.world r.0.wire; epd = r.0 }, ok (succeeded r.1))

  unfoldable pub on_flash : (flash.State → flash.State × Bool) → AppIo Bool
  on_flash k a =
      let r = k (flash_of a.world) in (record a { world = with_flash a.world r.0 }, ok r.1)

  -- `elapsed().as_millis()`
  abbrev pub elapsed_ms : App → ℕ → ℕ
  elapsed_ms a since = (now a.world - since) / 1000

  -- `Instant::now()` into a field.
  unfoldable pub note_activity : Done
  note_activity = update (λ a. record a { last_activity = now a.world })

  unfoldable pub delay_ms : ℕ → Done
  unfolding on_bus
  delay_ms ms = on_bus (update {E = Unit {0}} (bus.wait (ms * 1000))) >> pure tt

  -- `idle_sleep_ms`, with the time of the sleep counted
  unfoldable pub idle_sleep_ms : ℕ → Done
  idle_sleep_ms ms = update (λ a.
      let w = sleep_ms ms a.world in
      record a { world = w; idle_us = (a.idle_us + (now w - now a.world)) % 2 ^ 32 })
