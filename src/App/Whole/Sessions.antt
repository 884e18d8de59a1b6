-- ===== src/App/Whole/Sessions.antt =====
-- The image of the content through a session of app/ble.rs.
use paper_name_plate.Base.{
  ℕ, zero, suc, ◌≡◌, refl, sym, subst, List, [], ◌∷◌, Bool-cases, inl, inr, Bool, not, ◌&&◌,
}
use paper_name_plate.Base.{Option, none, some}
use paper_name_plate.Base.Io.{◌>>=◌, update, Keeps, Keeps-update, Keeps-bind, keeps_rules}
use paper_name_plate.Plate.Image.{MonoImage}
use paper_name_plate.Plate.Image.Codec.{IsImage}
use paper_name_plate.Plate.Ndef.Images.{IsWhole, none-IsWhole}
use paper_name_plate.Plate.Content.{PlateContent}
use paper_name_plate.Plate.Ndef.Write.{has_image}
use paper_name_plate.Ble.Receive.{ImgRx, take_image}
use paper_name_plate.Ble.Receive.Invariant.{
  IsValid, fresh-IsValid, take_notification-IsValid, take_image-IsValid, take_content-IsValid,
  take_clear-IsValid,
}
use paper_name_plate.Ble.Receive.Session.{run-IsValid, IsImage-of_valid}
use paper_name_plate.App.{Machine, App, AppIo}
use paper_name_plate.App.Display.{filled, shown, stored_image}
use paper_name_plate.App.Start.{start_app}
use paper_name_plate.App.Kept.{On}
use paper_name_plate.App.Session.{
  Gatt, WorkResult, got_disconnected, did_work, work_error, SessionEnd, restart, doze, Session,
  SessionIo, on_app, on_rx, set_errors, do_work, after_work, pump_round, pump, apply_image,
  refresh_text, apply_text, hand_over, ask_doze, rest_round, idle_round, after_pump, session_round,
  or_again, session_loop, stop_advertising, finish, ble_session, new_session,
}
use paper_name_plate.App.Whole.{
  Shows, on_ble_image-Shows, on_ble_content-Shows, on_clear_image-Shows,
}
use paper_name_plate.App.Whole.Controls.{
  tick_light-Shows, should_doze-Shows, doze_diag_set-Shows, start_app-Shows, decoded-IsWhole,
}
use paper_name_plate.App.Whole.Ticks.{tick-Shows}

filled-IsWhole :
    (b : Bool) (i : Option MonoImage) (c : PlateContent)
    → IsWhole i
    → IsWhole c.image
    → IsWhole (filled b i c).image
filled-IsWhole b i c v h = elim (Bool-cases (not (has_image c.image) && b)) [
  | inl e ↦ rw e v
  | inr e ↦ rw e h
]

module _ (m : Machine) (g : Gatt m) where
  -- The image of the content is whole, and the receiver's invariant holds.
  abbrev pub IsSound : Session m g → Type 0
  IsSound s = On m (Shows m) s.app × IsValid s.rx

  on_app-Sound :
      {A : Type 0} (k : AppIo m A) → Keeps (On m (Shows m)) k → Keeps IsSound (on_app m g k)
  unfolding on_app
  on_app-Sound k h = record { keep = λ s v. (h.keep s.app v.0, v.1) }

  on_rx-Sound :
      {A : Type 0} (k : ImgRx → ImgRx × A)
      → ((rx : ImgRx) → IsValid rx → IsValid (k rx).0)
      → Keeps IsSound (on_rx m g k)
  unfolding on_rx
  on_rx-Sound k h = record { keep = λ s v. (v.0, h s.rx v.1) }

  set_errors-Sound : (n : ℕ) → Keeps IsSound (set_errors m g n)
  unfolding set_errors
  set_errors-Sound n = Keeps-update _ (λ s h. h)

  do_work-Sound : (ntf : Option (List ℕ)) → Keeps IsSound (do_work m g ntf)
  unfolding do_work
  do_work-Sound ntf = record {
    keep = λ s h. (h.0, run-IsValid _ s.rx (g.work_bytes ntf s.app.world) h.1);
  }

  after_work-Sound :
      (again : SessionIo m g (Option SessionEnd))
      → Keeps IsSound again
      → (r : WorkResult) → Keeps IsSound (after_work m g again r)
  unfolding after_work
  after_work-Sound again h got_disconnected = search keeps_rules depth 20
  after_work-Sound again h did_work = h
  after_work-Sound again h work_error = search (keeps_rules, set_errors-Sound) depth 20

  pump_round-Sound :
      (again : SessionIo m g (Option SessionEnd))
      → Keeps IsSound again
      → Keeps IsSound (pump_round m g again)
  unfolding pump_round
  pump_round-Sound again h =
      search (keeps_rules, on_rx-Sound, take_notification-IsValid, do_work-Sound, after_work-Sound)
        depth 30

  pump-Sound : (n : ℕ) → Keeps IsSound (pump m g n)
  unfolding pump
  pump-Sound zero = search keeps_rules depth 10
  pump-Sound (suc n) = pump_round-Sound _ (pump-Sound n)

  apply_image-Sound :
      (o : Option MonoImage)
      → ((img : MonoImage) → o ≡ some img → IsImage img)
      → Keeps IsSound (apply_image m g o)
  unfolding apply_image
  apply_image-Sound none h = search keeps_rules depth 10
  apply_image-Sound (some img) h =
      Keeps-bind _ _ (on_app-Sound _ (on_ble_image-Shows m img (h img refl)))
        (λ u. set_errors-Sound 0)

  take_image-Sound : Keeps IsSound (on_rx m g take_image >>= apply_image m g)
  unfolding ◌>>=◌ on_rx
  take_image-Sound = record {
    keep = λ s h.
        (apply_image-Sound (take_image s.rx).1 (λ img e. IsImage-of_valid s.rx img h.1 e)).keep
          (record s { rx = (take_image s.rx).0 }) (h.0, take_image-IsValid s.rx h.1);
  }

  refresh_text-Sound : Keeps IsSound (refresh_text m g)
  unfolding refresh_text
  refresh_text-Sound = Keeps-update _ (λ s h. h)

  apply_text-Sound : (o : Option (List ℕ)) → Keeps IsSound (apply_text m g o)
  unfolding apply_text
  apply_text-Sound none = search keeps_rules depth 10
  apply_text-Sound (some text) =
      search (keeps_rules, on_app-Sound, on_ble_content-Shows, refresh_text-Sound, set_errors-Sound)
        depth 20

  hand_over-Sound : Keeps IsSound (hand_over m g)
  unfolding hand_over
  hand_over-Sound =
      search
        (
          keeps_rules, take_image-Sound, on_rx-Sound, take_content-IsValid, apply_text-Sound,
          take_clear-IsValid, on_app-Sound, on_clear_image-Shows,
        )
        depth 40

  ask_doze-Sound : Keeps IsSound (ask_doze m g)
  unfolding ask_doze
  ask_doze-Sound = on_app-Sound _ (Keeps-update _ (λ a h. h))

  module _ (depth rounds : ℕ) (debug : Bool) where
    rest_round-Sound : Keeps IsSound (rest_round m g depth rounds debug)
    unfolding rest_round
    rest_round-Sound = search (keeps_rules, on_app-Sound, should_doze-Shows, tick-Shows) depth 30

    idle_round-Sound : Keeps IsSound (idle_round m g depth rounds debug)
    unfolding idle_round
    idle_round-Sound =
        search (keeps_rules, on_app-Sound, tick_light-Shows, ask_doze-Sound, rest_round-Sound) depth
          30

    after_pump-Sound : (e : Option SessionEnd) → Keeps IsSound (after_pump m g depth rounds debug e)
    after_pump-Sound (some e) = search keeps_rules depth 10
    after_pump-Sound none = search (keeps_rules, hand_over-Sound, idle_round-Sound) depth 10

    session_round-Sound : Keeps IsSound (session_round m g depth rounds debug)
    unfolding session_round
    session_round-Sound = search (keeps_rules, pump-Sound, after_pump-Sound) depth 20

    or_again-Sound :
        (again : SessionIo m g SessionEnd)
        → Keeps IsSound again
        → (o : Option SessionEnd) → Keeps IsSound (or_again m g depth rounds debug again o)
    or_again-Sound again h none = h
    or_again-Sound again h (some e) = search keeps_rules depth 10

    session_loop-Sound : (n : ℕ) → Keeps IsSound (session_loop m g depth rounds debug n)
    unfolding session_loop
    session_loop-Sound zero = search keeps_rules depth 10
    session_loop-Sound (suc n) =
        Keeps-bind _ _ session_round-Sound (or_again-Sound _ (session_loop-Sound n))

    set_world-Sound :
        (w : m.World) → Keeps IsSound (on_app m g (update (λ a. record a { world = w })))
    set_world-Sound w = on_app-Sound _ (Keeps-update _ (λ a h. h))

    stop_advertising-Sound : Keeps IsSound (stop_advertising m g depth rounds debug)
    unfolding stop_advertising
    stop_advertising-Sound =
        search (keeps_rules, set_world-Sound, on_app-Sound, doze_diag_set-Shows) depth 20

    finish-Sound : (e : SessionEnd) → Keeps IsSound (finish m g depth rounds debug e)
    finish-Sound restart = search keeps_rules depth 10
    finish-Sound doze = search (keeps_rules, stop_advertising-Sound) depth 10

    ble_session-Sound : (n : ℕ) → Keeps IsSound (ble_session m g depth rounds debug n)
    unfolding ble_session
    ble_session-Sound n =
        search (keeps_rules, session_loop-Sound, ask_doze-Sound, finish-Sound) depth 30

    -- Sessions one after the other, each of so many rounds.
    abbrev pub sessions : List ℕ → App m → App m
    sessions [] a = a
    sessions (n ∷ ns) a =
        sessions ns (ble_session m g depth rounds debug n (new_session m g a)).0.app

    sessions-Shows : (ns : List ℕ) (a : App m) → On m (Shows m) a → On m (Shows m) (sessions ns a)
    sessions-Shows [] a h = h
    sessions-Shows (n ∷ ns) a h =
        sessions-Shows ns _ ((ble_session-Sound n).keep (new_session m g a) (h, fresh-IsValid)).0

    -- An application that begins without an image, and starts, draws whole images alone: whatever
    -- clients, readers and tags send in any sessions, and whatever stands in the flash, the image at
    -- hand and the one that is drawn, if there is one, fit the panel and have all their rows, behind a
    -- session that ends with an error too.
    pub sessions-IsWhole :
        (ns : List ℕ) (woke : Bool) (a : App m)
        → a.content.image ≡ none
        → IsWhole (sessions ns (start_app m woke a).0).content.image
          × IsWhole (shown m (sessions ns (start_app m woke a).0)).image
    unfolding shown
    sessions-IsWhole ns woke a e =
        let b = sessions ns (start_app m woke a).0 in
        let h =
          sessions-Shows ns _
            ((start_app-Shows m woke).keep a (subst IsWhole (sym e) none-IsWhole)) in
        (h, filled-IsWhole b.image_in_flash (stored_image m b) b.content (decoded-IsWhole _) h)
