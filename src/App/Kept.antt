-- ===== src/App/Kept.antt =====
-- The calls of app/mod.rs that leave the flash, the content, the tag's memory and the mark of the
-- stored image as they were.
use paper_name_plate.Base.{ℕ, zero, suc, sym, subst, List, Bool, false}
use paper_name_plate.Base.Io.{
  Io, ◌>>=◌, ◌>>◌, pure, update, gets, Keeps, Keeps-pure, Keeps-update, Keeps-bind, keeps_rules,
}
use paper_name_plate.Plate.Content.{PlateContent}
use paper_name_plate.Panel.Driver.{PanelIo}
use paper_name_plate.Panel.Driver.Refresh.{GrayMode}
use paper_name_plate.App.{Machine, App, AppIo, on_bus, on_epd, try_epd, note_activity}
use paper_name_plate.App.Display.{
  set_asleep, refresh_or, keep_displayed, refresh_attempts, epd_refresh, refresh_and_keep, wake_epd,
  set_fast_refreshes, draw_plate,
}
use paper_name_plate.App.Store.{redraw_plate, draw_content}

module _ (m : Machine) where
  open m use {World, bus, wire, flash, flash_of, flash_of-with_bus, flash_of-with_wire}

  -- A property of the flash, the content, the tag's memory, and whether an image is stored.
  abbrev pub Property : Type 1
  Property = flash.State → PlateContent → List ℕ → Bool → Type 0

  abbrev pub On : Property → App m → Type 0
  On P a = P (flash_of a.world) a.content a.emu.tag.memory a.image_in_flash

  module _ (P : Property) where
    pub on_bus-On : {E A : Type 0} (k : Io bus.State E A) → Keeps (On P) (on_bus m k)
    unfolding on_bus
    on_bus-On k = record {
      keep = λ a h.
          subst (λ s. P s a.content a.emu.tag.memory a.image_in_flash)
            (sym (flash_of-with_bus a.world _)) h;
    }

    pub on_epd-On : {A : Type 0} (k : PanelIo wire A) → Keeps (On P) (on_epd m k)
    unfolding on_epd
    on_epd-On k = record {
      keep = λ a h.
          subst (λ s. P s a.content a.emu.tag.memory a.image_in_flash)
            (sym (flash_of-with_wire a.world _)) h;
    }

    pub try_epd-On : {A : Type 0} (k : PanelIo wire A) → Keeps (On P) (try_epd m k)
    unfolding try_epd
    try_epd-On k = record {
      keep = λ a h.
          subst (λ s. P s a.content a.emu.tag.memory a.image_in_flash)
            (sym (flash_of-with_wire a.world _)) h;
    }

    pub set_asleep-On : (b : Bool) → Keeps (On P) (set_asleep m b)
    unfolding set_asleep
    set_asleep-On b = Keeps-update _ (λ a h. h)

    pub set_fast_refreshes-On : (n : ℕ) → Keeps (On P) (set_fast_refreshes m n)
    unfolding set_fast_refreshes
    set_fast_refreshes-On n = Keeps-update _ (λ a h. h)

    pub keep_displayed-On : Keeps (On P) (keep_displayed m)
    unfolding keep_displayed
    keep_displayed-On = Keeps-update _ (λ a h. h)

    pub redraw_plate-On : Keeps (On P) (redraw_plate m)
    unfolding redraw_plate draw_plate
    redraw_plate-On = Keeps-update _ (λ a h. h)

    pub note_activity-On : Keeps (On P) (note_activity m)
    unfolding note_activity
    note_activity-On = Keeps-update _ (λ a h. h)

    pub draw_content-On : Keeps (On P) (draw_content m)
    unfolding draw_content
    draw_content-On = Keeps-update _ (λ a h. h)

    pub ruleset calls_keep = (
      keeps_rules, on_bus-On, on_epd-On, try_epd-On, set_asleep-On, set_fast_refreshes-On,
      keep_displayed-On, redraw_plate-On, note_activity-On, draw_content-On,
    )

    pub refresh_or-On :
        (mode : GrayMode) (again : AppIo m Bool)
        → Keeps (On P) again
        → Keeps (On P) (refresh_or m mode again)
    unfolding refresh_or
    refresh_or-On mode again h = search calls_keep depth 20

    pub refresh_attempts-On : (n : ℕ) (mode : GrayMode) → Keeps (On P) (refresh_attempts m n mode)
    unfolding refresh_attempts
    refresh_attempts-On zero mode = Keeps-pure false
    refresh_attempts-On (suc n) mode =
        refresh_or-On mode (refresh_attempts m n mode) (refresh_attempts-On n mode)

    pub refresh_and_keep-On : (mode : GrayMode) → Keeps (On P) (refresh_and_keep m mode)
    unfolding refresh_and_keep epd_refresh
    refresh_and_keep-On mode = search (calls_keep, refresh_attempts-On) depth 20

    pub wake_epd-On : Keeps (On P) (wake_epd m)
    unfolding wake_epd
    wake_epd-On = search calls_keep depth 20
