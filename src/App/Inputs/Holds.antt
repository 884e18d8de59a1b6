-- ===== src/App/Inputs/Holds.antt =====
-- A press of button A in app/mod.rs: when it switches the mode, and how often.
use paper_name_plate.Base.{
  ℕ, ◌-◌, ◌/◌, ◌≡◌, ◌∙◌, refl, ap, arith, List, [], ◌∷◌, Bool, true, false, not,
}
use paper_name_plate.Base.{◌||◌, ltb, if◌then◌else◌, All, Bool-cases, inl, inr}
use paper_name_plate.Base.Results.{Result, ok, err}
use paper_name_plate.Base.Io.{
  Io, pure, continue, ◌>>=◌, ◌>>◌, update, gets, Keeps, Keeps-pure, Keeps-if, Keeps-update,
  keeps_rules, Total, total_rules,
}
use paper_name_plate.Tag.States.{Emulator}
use paper_name_plate.Nfc.Driver.{Chip}
use paper_name_plate.App.{Machine, App, Done, Stuck, on_emu, on_nfc, note_activity}
use paper_name_plate.App.Inputs.{
  set_running, stop_emulation, become_reader, switch_mode, set_armed, press_button, set_btn_a_down,
  note_buttons, start_press, is_due, hold_button, handle_buttons,
}

module _ (m : Machine) where
  open m use {World, bus, now, button_a_low}

  -- The mode, and the fields of button A.
  abbrev View : Bool → Bool → ℕ → Bool → App m → Type 0
  View mode down since armed a =
      (a.emulate ≡ mode) × (a.btn_a_down ≡ down) × (a.btn_a_since ≡ since) × (a.btn_a_armed ≡ armed)

  on_emu-Total : {E A : Type 0} (k : Io (Emulator bus) E A) → Total (on_emu m k)
  unfolding on_emu
  on_emu-Total k = record { returns = λ a. (_, refl) }

  on_nfc-Total : {E A : Type 0} (k : Io (Chip bus) E A) → Total (on_nfc m k)
  unfolding on_nfc
  on_nfc-Total k = record { returns = λ a. (_, refl) }

  switch_mode-Total : Total (switch_mode m)
  unfolding switch_mode become_reader stop_emulation set_running
  switch_mode-Total = search (total_rules, on_emu-Total, on_nfc-Total) depth 30

  module _ (mode down : Bool) (since : ℕ) (armed : Bool) where
    on_emu-View :
        {E A : Type 0} (k : Io (Emulator bus) E A) → Keeps (View mode down since armed) (on_emu m k)
    unfolding on_emu
    on_emu-View k = record { keep = λ a h. h }

    on_nfc-View :
        {E A : Type 0} (k : Io (Chip bus) E A) → Keeps (View mode down since armed) (on_nfc m k)
    unfolding on_nfc
    on_nfc-View k = record { keep = λ a h. h }

    set_running-View : (b : Bool) → Keeps (View mode down since armed) (set_running m b)
    unfolding set_running
    set_running-View b = Keeps-update _ (λ a h. h)

    become_reader-View : Keeps (View mode down since armed) (become_reader m)
    unfolding become_reader stop_emulation
    become_reader-View = search (keeps_rules, on_emu-View, on_nfc-View, set_running-View) depth 30

  switch_mode-View :
      (a : App m)
      → View (not a.emulate) a.btn_a_down a.btn_a_since a.btn_a_armed (switch_mode m a).0
  unfolding switch_mode ◌>>=◌ update gets
  switch_mode-View a =
      (Keeps-if (not a.emulate) (pure tt) (become_reader m) (Keeps-pure tt)
          (become_reader-View (not a.emulate) a.btn_a_down a.btn_a_since a.btn_a_armed)).keep
        (record a { emulate = not a.emulate }) (refl, refl, refl, refl)

  hold_button-Total : (down : Bool) → Total (hold_button m down)
  unfolding hold_button set_armed
  hold_button-Total down = search (total_rules, switch_mode-Total) depth 30

  hold_due :
      (a : App m)
      → is_due m a ≡ true
      → View (not a.emulate) a.btn_a_down a.btn_a_since false (hold_button m true a).0
  unfolding hold_button set_armed ◌>>=◌ update gets
  hold_due a e = rw e (switch_mode-View (record a { btn_a_armed = false }))

  hold_not_due : (a : App m) → is_due m a ≡ false → (hold_button m true a).0 ≡ a
  unfolding hold_button ◌>>=◌ gets pure
  hold_not_due a e = rw e refl

  -- The state in which the hold is looked at: the first poll of a press starts its time.
  abbrev seen : Bool → App m → App m
  seen true a = record a { last_activity = now a.world }
  seen false a = record a {
    last_activity = now a.world;
    btn_a_since = now a.world;
    btn_a_armed = true;
  }

  continue-done :
      (r : App m × Result Stuck (Unit {0})) (f : Unit {0} → Done m)
      → (u : Unit {0}) × (r.1 ≡ ok u)
      → continue r f ≡ f tt r.0
  continue-done (s, ok u) f h = refl
  continue-done (s, err e) f h = absurd (let (u, e') = h in ground arith)

  start_press-steps :
      (b : Bool) (a : App m)
      → a.btn_a_down ≡ b
      → start_press m true (record a { last_activity = now a.world }) ≡ (seen b a, ok tt)
  unfolding start_press press_button ◌>>=◌ update gets pure
  start_press-steps true a d =
      ap
        (λ b.
          (if not b then press_button m else pure tt) (record a { last_activity = now a.world }))
        d
  start_press-steps false a d =
      ap
        (λ b.
          (if not b then press_button m else pure tt) (record a { last_activity = now a.world }))
        d

  -- What follows the look at the start of a press.
  abbrev hold_and_note : Bool → Done m
  hold_and_note down = hold_button m down >> set_btn_a_down m down

  poll-steps :
      (b : Bool) (a : App m)
      → button_a_low a.world ≡ true
      → a.btn_a_down ≡ b
      → handle_buttons m a ≡ continue (hold_button m true (seen b a)) (λ u. set_btn_a_down m true)
  unfolding handle_buttons note_buttons note_activity ◌>>=◌ update gets
  poll-steps b a e d =
      ap (λ down. (note_buttons m down >> (start_press m down >> hold_and_note down)) a) e
      ∙ ap (λ r. continue r (λ u. hold_and_note true)) (start_press-steps b a d)

  poll_down :
      (b : Bool) (a : App m)
      → button_a_low a.world ≡ true
      → a.btn_a_down ≡ b
      → (handle_buttons m a).0 ≡ record (hold_button m true (seen b a)).0 { btn_a_down = true }
  unfolding set_btn_a_down update
  poll_down b a e d =
      ap (λ r. r.0)
        (poll-steps b a e d
          ∙ continue-done (hold_button m true (seen b a)) (λ u. set_btn_a_down m true)
              ((hold_button-Total true).returns (seen b a)))

  -- Was a button that is down since a time held for more than a second?
  abbrev pub is_late : ℕ → World → Bool
  is_late since w = ltb 1000 ((now w - since) / 1000)

  abbrev pub any_late : ℕ → List World → Bool
  any_late since [] = false
  any_late since (w ∷ ws) = is_late since w || any_late since ws

  -- Polls of the buttons, each in its world.
  abbrev pub polled : List World → App m → App m
  polled [] a = a
  polled (w ∷ ws) a = polled ws (handle_buttons m (record a { world = w })).0

  abbrev pub IsDown : World → Type 0
  IsDown w = button_a_low w ≡ true

  poll_done :
      (e : Bool) (s : ℕ) (w : World) (a : App m)
      → IsDown w
      → View e true s false a
      → View e true s false (handle_buttons m (record a { world = w })).0
  poll_done e s w a d v =
      let b = record a { world = w; last_activity = now w } in
      let same = hold_not_due b (rw (v.1, v.3) refl) in
      rw (poll_down true (record a { world = w }) d v.1, same) (v.0, refl, v.2, v.3)

  poll_waits :
      (e : Bool) (s : ℕ) (w : World) (a : App m)
      → IsDown w
      → View e true s true a
      → is_late s w ≡ false
      → View e true s true (handle_buttons m (record a { world = w })).0
  poll_waits e s w a d v l =
      let b = record a { world = w; last_activity = now w } in
      let same = hold_not_due b (rw (v.1, v.2, v.3) l) in
      rw (poll_down true (record a { world = w }) d v.1, same) (v.0, refl, v.2, v.3)

  poll_late :
      (e : Bool) (s : ℕ) (w : World) (a : App m)
      → IsDown w
      → View e true s true a
      → is_late s w ≡ true
      → View (not e) true s false (handle_buttons m (record a { world = w })).0
  poll_late e s w a d v l =
      let b = record a { world = w; last_activity = now w } in
      let h = hold_due b (rw (v.1, v.2, v.3) l) in
      rw (poll_down true (record a { world = w }) d v.1) (h.0 ∙ ap not v.0, refl, h.2 ∙ v.2, h.3)

  polled_done :
      (e : Bool) (s : ℕ) (ws : List World) (a : App m)
      → All IsDown ws
      → View e true s false a
      → (polled ws a).emulate ≡ e
  polled_done e s [] a d v = v.0
  polled_done e s (w ∷ ws) a d v =
      polled_done e s ws (handle_buttons m (record a { world = w })).0 d.1 (poll_done e s w a d.0 v)

  polled_armed :
      (e : Bool) (s : ℕ) (ws : List World) (a : App m)
      → All IsDown ws
      → View e true s true a
      → (polled ws a).emulate ≡ (if any_late s ws then not e else e)
  polled_armed e s [] a d v = v.0
  polled_armed e s (w ∷ ws) a d v =
      let b = (handle_buttons m (record a { world = w })).0 in
      elim (Bool-cases (is_late s w)) [
        | inl l ↦ rw l (polled_done (not e) s ws b d.1 (poll_late e s w a d.0 v l))
        | inr l ↦ rw l (polled_armed e s ws b d.1 (poll_waits e s w a d.0 v l))
      ]

  -- A press of button A, polled in any worlds from the first on, switches between tag and reader
  -- exactly if one of the later polls comes more than a second behind the first, and then once,
  -- however long the press lasts.
  pub press_switches :
      (a : App m) (w : World) (ws : List World)
      → a.btn_a_down ≡ false
      → All IsDown (w ∷ ws)
      → (polled (w ∷ ws) a).emulate ≡ (if any_late (now w) ws then not a.emulate else a.emulate)
  press_switches a w ws up d =
      let b = record a { world = w } in
      let same = hold_not_due (seen false b) (rw up refl) in
      polled_armed a.emulate (now w) ws (handle_buttons m b).0 d.1
        (rw (poll_down false b d.0 up, same) (refl, refl, refl, refl))
