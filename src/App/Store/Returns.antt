-- ===== src/App/Store/Returns.antt =====
-- The calls of app/mod.rs that always return.
use paper_name_plate.Base.{ℕ, zero, suc, refl, Bool, false, Option, none, some}
use paper_name_plate.Base.Io.{Io, Total, Total-pure, Total-if, total_rules}
use paper_name_plate.Plate.Image.{MonoImage}
use paper_name_plate.Panel.Driver.{PanelIo}
use paper_name_plate.Panel.Driver.Refresh.{GrayMode}
use paper_name_plate.App.{Machine, AppIo, on_bus, on_epd, try_epd, on_flash}
use paper_name_plate.App.Display.{
  set_asleep, refresh_or, keep_displayed, refresh_attempts, epd_refresh, refresh_and_keep, wake_epd,
}
use paper_name_plate.App.Display.{set_fast_refreshes}
use paper_name_plate.App.Store.{
  serve_ndef, save_content, keep_image, mark_image, keep_small_image, redraw_plate, commit_content,
}

module _ (m : Machine) where
  open m use {bus, wire, flash}

  -- Every call returns.
  on_bus-Total : {E A : Type 0} (k : Io bus.State E A) → Total (on_bus m k)
  unfolding on_bus
  on_bus-Total k = record { returns = λ a. (_, refl) }

  on_epd-Total : {A : Type 0} (k : PanelIo wire A) → Total (on_epd m k)
  unfolding on_epd
  on_epd-Total k = record { returns = λ a. (_, refl) }

  try_epd-Total : {A : Type 0} (k : PanelIo wire A) → Total (try_epd m k)
  unfolding try_epd
  try_epd-Total k = record { returns = λ a. (_, refl) }

  on_flash-Total : (k : flash.State → flash.State × Bool) → Total (on_flash m k)
  unfolding on_flash
  on_flash-Total k = record { returns = λ a. (_, refl) }

  ruleset calls_return = (total_rules, on_bus-Total, on_epd-Total, try_epd-Total, on_flash-Total)

  refresh_or-Total : (mode : GrayMode) (n : AppIo m Bool) → Total n → Total (refresh_or m mode n)
  unfolding refresh_or set_asleep
  refresh_or-Total mode n h = search calls_return depth 20

  refresh_attempts-Total : (n : ℕ) (mode : GrayMode) → Total (refresh_attempts m n mode)
  unfolding refresh_attempts
  refresh_attempts-Total zero mode = Total-pure false
  refresh_attempts-Total (suc n) mode = refresh_or-Total mode _ (refresh_attempts-Total n mode)

  pub refresh_and_keep-Total : (mode : GrayMode) → Total (refresh_and_keep m mode)
  unfolding refresh_and_keep epd_refresh keep_displayed
  refresh_and_keep-Total mode = search (calls_return, refresh_attempts-Total) depth 20

  pub wake_epd-Total : Total (wake_epd m)
  unfolding wake_epd set_asleep set_fast_refreshes
  wake_epd-Total = search calls_return depth 20

  pub keep_image-Total : (img : MonoImage) → Total (keep_image m img)
  unfolding keep_image mark_image
  keep_image-Total img = search calls_return depth 20

  keep_small_image-Total : (i : Option MonoImage) → Total (keep_small_image m i)
  unfolding keep_small_image
  keep_small_image-Total none = Total-pure tt
  keep_small_image-Total (some img) = Total-if _ _ _ (keep_image-Total img) (Total-pure tt)

  pub commit_content-Total : Total (commit_content m)
  unfolding commit_content serve_ndef save_content redraw_plate set_fast_refreshes
  commit_content-Total =
      search (calls_return, keep_small_image-Total, wake_epd-Total, refresh_and_keep-Total) depth 30
