-- ===== src/App/Session.antt =====
-- `ble_session` of app/ble.rs: the radio's session, and what it hands to the application.
use paper_name_plate.Base.{ℕ, zero, suc, ◌+◌, ◌-◌, ◌/◌, List, Bool, true, false, not, ◌&&◌, All}
use paper_name_plate.Base.{Option, none, some, ltb, leb, ◌==◌, if◌then◌else◌}
use paper_name_plate.Base.Results.{ok}
use paper_name_plate.Base.Io.{Io, pure, fail, ◌>>=◌, ◌>>◌, update, gets}
use paper_name_plate.Text.Utf8.{Str}
use paper_name_plate.Plate.Image.{MonoImage}
use paper_name_plate.Plate.Plain.{to_plain}
use paper_name_plate.Ble.Receive.{
  ImgRx, fresh, st_receiving, take_notification, take_image, take_content, take_clear,
}
use paper_name_plate.Ble.Receive.Session.{Event, run, OfBytes}
use paper_name_plate.App.{Machine, App, AppIo, Stuck, out_of_rounds}
use paper_name_plate.App.Store.{on_ble_image, on_ble_content, on_clear_image}
use paper_name_plate.App.Loop.{should_doze, tick, tick_light, doze_after_ms, doze_diag_set}

pub data WorkResult : Type 0 where
  got_disconnected did_work work_error : WorkResult

pub data SessionEnd : Type 0 where
  restart doze : SessionEnd

-- What bleps and the radio do: whether the radio has something, a round of work, in which the client
-- causes events at the receiver, and the end of the advertising. What a client writes is bytes.
pub record Gatt (m : Machine) : Type 1 where
  pub have_data : m.World → Bool
  pub work : Option (List ℕ) → m.World → m.World × List Event × WorkResult
  pub advertise_off : m.World → m.World × Bool
  pub work_bytes : (n : Option (List ℕ)) (w : m.World) → All OfBytes (work n w).1

module _ (m : Machine) (g : Gatt m) where
  open m use {World, now}
  open g use {have_data, work, advertise_off, work_bytes}

  -- The application, and the variables of `ble_session`.
  pub record Session : Type 0 where
    pub app : App m
    pub rx : ImgRx
    pub content_text : Str
    pub errors : ℕ
    pub hci_last_ms : ℕ

  abbrev pub SessionIo : Type 0 → Type 0
  SessionIo A = Io Session Stuck A

  abbrev pub Step : Type 0
  Step = SessionIo (Unit {0})

  abbrev pub millis : Session → ℕ
  millis s = now s.app.world / 1000

  -- A call of the application.
  unfoldable pub on_app : {A : Type 0} → AppIo m A → SessionIo A
  on_app k s = let r = k s.app in (record s { app = r.0 }, r.1)

  -- A call of the receiver.
  unfoldable pub on_rx : {A : Type 0} → (ImgRx → ImgRx × A) → SessionIo A
  on_rx k s = let r = k s.rx in (record s { rx = r.0 }, ok r.1)

  unfoldable pub set_errors : ℕ → Step
  set_errors n = update (λ s. record s { errors = n })

  unfoldable pub do_work : Option (List ℕ) → SessionIo WorkResult
  do_work ntf s =
      let (w, es, r) = work ntf s.app.world in
      (
        record s { app = record s.app { world = w }; rx = run es s.rx; hci_last_ms = millis s },
        ok r,
      )

  abbrev pub is_none : Option (List ℕ) → Bool
  is_none none = true
  is_none (some n) = false

  -- What follows a round of work: the end of the session, or of the pumping, or `again`.
  unfoldable pub after_work :
      SessionIo (Option SessionEnd) → WorkResult → SessionIo (Option SessionEnd)
  unfolding set_errors
  after_work again got_disconnected = pure (some restart)
  after_work again did_work = again
  after_work again work_error = do
    n ← gets (λ s. s.errors + 1)
    set_errors n
    if leb 8 n then pure (some restart) else pure none

  unfoldable pub pump_round : SessionIo (Option SessionEnd) → SessionIo (Option SessionEnd)
  unfolding do_work after_work
  pump_round again = do
    ntf ← on_rx take_notification
    s ← gets (λ s. s)
    (if is_none ntf && not (have_data s.app.world)
        then pure none
        else do_work ntf >>= after_work again)

  -- `n` rounds of the pump
  unfoldable pub pump : ℕ → SessionIo (Option SessionEnd)
  unfolding pump_round
  pump zero = pure none
  pump (suc n) = pump_round (pump n)

  unfoldable pub apply_image : Option MonoImage → Step
  unfolding set_errors
  apply_image none = pure tt
  apply_image (some img) = on_app (on_ble_image m img) >> set_errors 0

  unfoldable pub refresh_text : Step
  refresh_text = update (λ s. record s { content_text = to_plain s.app.content })

  unfoldable pub apply_text : Option (List ℕ) → Step
  unfolding refresh_text set_errors
  apply_text none = pure tt
  apply_text (some text) = on_app (on_ble_content m text) >> (refresh_text >> set_errors 0)

  -- What the receiver has ready goes to the application.
  unfoldable pub hand_over : Step
  unfolding apply_image apply_text
  hand_over = do
    on_rx take_image >>= apply_image
    on_rx take_content >>= apply_text
    clear ← on_rx take_clear
    if clear then on_app (on_clear_image m) else pure tt

  unfoldable pub ask_doze : Step
  ask_doze = on_app (update (λ a. record a { doze_test = true }))

  abbrev pub is_active : Session → Bool
  is_active s = ltb (millis s - s.rx.last_ms) 3000

  module _ (depth rounds : ℕ) (debug : Bool) where
    -- Between transfers: sleep, if it is time, or a tick of the application.
    unfoldable pub rest_round : SessionIo (Option SessionEnd)
    unfolding ask_doze
    rest_round = do
      s ← gets (λ s. s)
      late ←
          if ltb doze_after_ms (millis s - s.hci_last_ms)
          then on_app (should_doze m)
          else pure false
      (if late then pure (some doze) else on_app (tick m depth rounds debug true 6) >> pure none)

    unfoldable pub idle_round : SessionIo (Option SessionEnd)
    unfolding rest_round ask_doze
    idle_round = do
      s ← gets (λ s. s)
      (if s.rx.state == st_receiving
          then pure none
          else if is_active s
          then on_app (tick_light m) >> pure none
          else if s.rx.doze_test_req
          then ask_doze >> pure (some doze)
          else rest_round)

    abbrev pub after_pump : Option SessionEnd → SessionIo (Option SessionEnd)
    after_pump (some e) = pure (some e)
    after_pump none = hand_over >> idle_round

    -- A round of the session loop: `some` is its end.
    unfoldable pub session_round : SessionIo (Option SessionEnd)
    unfolding pump hand_over idle_round
    session_round = pump 96 >>= after_pump

    abbrev pub or_again : SessionIo SessionEnd → Option SessionEnd → SessionIo SessionEnd
    or_again again none = again
    or_again again (some e) = pure e

    unfoldable pub session_loop : ℕ → SessionIo SessionEnd
    unfolding session_round
    session_loop zero = fail out_of_rounds
    session_loop (suc n) = session_round >>= or_again (session_loop n)

    unfoldable pub stop_advertising : Step
    stop_advertising = do
      s ← gets (λ s. s)
      let r = advertise_off s.app.world
      on_app (update (λ a. record a { world = r.0 }))
      on_app (doze_diag_set m 4 (if r.1 then 1 else 2))

    abbrev pub finish : SessionEnd → SessionIo SessionEnd
    finish restart = pure restart
    finish doze = stop_advertising >> pure doze

    -- `ble_session` behind the start of the advertising, for `n` rounds of its loop
    unfoldable pub ble_session : ℕ → SessionIo SessionEnd
    unfolding session_loop ask_doze stop_advertising
    ble_session n = do
      e ← session_loop n
      s ← gets (λ s. s)
      if s.rx.doze_test_req then ask_doze >> finish doze else finish e

  -- The session of an application, as it begins.
  abbrev pub new_session : App m → Session
  new_session a = record {
    app = a;
    rx = fresh;
    content_text = to_plain a.content;
    errors = 0;
    hci_last_ms = now a.world / 1000;
  }
