-- ===== src/Tag/States/Moves.antt =====
-- What a step of the state machine keeps, and the diagram of its states.
use paper_name_plate.Base.{arith, ℕ, zero, suc, ◌≡◌, sym, subst, List, Bool}
use paper_name_plate.Base.Io.{◌>>=◌, gets, update, Keeps, keeps_rules, continue-state}
use paper_name_plate.Bus.{Bus}
use paper_name_plate.Nfc.Driver.{ChipIo}
use paper_name_plate.Tag.Commands.{Tag, CmdResult, stay, halt, drop_out}
use paper_name_plate.Tag.States.{State, off, idle, ready, active, halted}
use paper_name_plate.Tag.States.{
  Emulator, EmuIo, on_chip, idle_or, off_or, wait_reader, enter, set_wakeup, set_bitrate,
}
use paper_name_plate.Tag.States.{
  goto_off, goto_idle, goto_ready, goto_active, goto_halt, read_bitrate,
}
use paper_name_plate.Tag.States.Update.{
  update_off, stray_frame, auto_answer, update_idle, update_ready,
}
use paper_name_plate.Tag.States.Update.{
  fall_back, serve_command, set_commands, set_last_cmd, after_command, take_command, update_active,
}
use paper_name_plate.Tag.States.Update.{update_from, report, update_tag}

-- Any state may end in `off` or `idle`; the others are entered one from another.
pub data Move : State → State → Type 0 where
  rest : (s : State) → Move s s
  gone : (s : State) → Move s off
  sensed : (s : State) → Move s idle
  asked : Move idle ready
  asked_again : Move halted ready
  chosen : Move ready active
  sent_away : Move active halted

module _ (b : Bus) (P : State → Tag → Type 0) where
  abbrev pub On : Emulator b → Type 0
  On e = P e.state e.tag

  -- The property, kept.
  abbrev pub Stays : {A : Type 0} → EmuIo b A → Type 0
  Stays m = Keeps On m

  Stays-on_chip : {A : Type 0} (m : ChipIo b A) → Stays (on_chip b m)
  unfolding on_chip
  Stays-on_chip m = record { keep = λ e p. p }

  Stays-set_wakeup : (w : Bool) → Stays (set_wakeup b w)
  unfolding set_wakeup update
  Stays-set_wakeup w = record { keep = λ e p. p }

  Stays-set_bitrate : (slow : Bool) → Stays (set_bitrate b slow)
  unfolding set_bitrate update
  Stays-set_bitrate slow = record { keep = λ e p. p }

  Stays-set_commands : (n : ℕ) → Stays (set_commands b n)
  unfolding set_commands update
  Stays-set_commands n = record { keep = λ e p. p }

  Stays-set_last_cmd : (op : ℕ) → Stays (set_last_cmd b op)
  unfolding set_last_cmd update
  Stays-set_last_cmd op = record { keep = λ e p. p }

  ruleset stays_rules = (
    keeps_rules, Stays-on_chip, Stays-set_wakeup, Stays-set_bitrate, Stays-set_commands,
    Stays-set_last_cmd,
  )

  -- What each move between states asks of the property, the moves themselves in what they end with.
  module _ (to_off : Stays (enter b off)) (to_idle : Stays (enter b idle)) where
    idle_or-Stays : (m : EmuIo b (Unit {0})) → Stays m → Stays (idle_or b m)
    unfolding idle_or wait_reader
    idle_or-Stays m h = search stays_rules depth 20

    off_or-Stays : (m : EmuIo b (Unit {0})) → Stays m → Stays (off_or b m)
    unfolding off_or
    off_or-Stays m h = search (stays_rules, idle_or-Stays) depth 20

    goto_off-Stays : (n : ℕ) → Stays (goto_off b n)
    unfolding goto_off
    goto_off-Stays zero = search stays_rules
    goto_off-Stays (suc n) = off_or-Stays (goto_off b n) (goto_off-Stays n)

    goto_idle-Stays : (n : ℕ) → Stays (goto_idle b n)
    goto_idle-Stays n = idle_or-Stays _ (goto_off-Stays n)

    goto_ready-Stays : Stays (enter b ready) → (n : ℕ) → Stays (goto_ready b n)
    unfolding goto_ready
    goto_ready-Stays to n = search (stays_rules, goto_off-Stays) depth 20

    goto_active-Stays : Stays (enter b active) → Stays (goto_active b)
    unfolding goto_active
    goto_active-Stays to = search stays_rules depth 20

    goto_halt-Stays : Stays (enter b halted) → (n : ℕ) → Stays (goto_halt b n)
    unfolding goto_halt
    goto_halt-Stays to n = search (stays_rules, goto_off-Stays) depth 20

    ruleset move_rules = (
      stays_rules, goto_off-Stays, goto_idle-Stays, goto_ready-Stays, goto_active-Stays,
      goto_halt-Stays,
    )

    update_off-Stays : (n : ℕ) → Stays (update_off b n)
    unfolding update_off
    update_off-Stays n = search move_rules depth 20

    update_idle-Stays : Stays (enter b ready) → (n : ℕ) → Stays (update_idle b n)
    unfolding update_idle stray_frame auto_answer read_bitrate
    update_idle-Stays to n = search move_rules depth 30

    update_ready-Stays :
        Stays (enter b active) → (debug : Bool) (n : ℕ) → Stays (update_ready b debug n)
    unfolding update_ready
    update_ready-Stays to debug n = search move_rules depth 30

    -- In `active` the commands change the tag too.
    module _ (to : Stays (enter b halted))
        (served : (op : ℕ) (args : List ℕ) → Stays (serve_command b op args)) where
      fall_back-Stays : (n : ℕ) → Stays (fall_back b n)
      unfolding fall_back
      fall_back-Stays n = search move_rules depth 20

      after_command-Stays : (n : ℕ) (r : CmdResult) → Stays (after_command b n r)
      after_command-Stays n stay = search move_rules
      after_command-Stays n halt = search move_rules
      after_command-Stays n drop_out = fall_back-Stays n

      update_active-Stays : (n : ℕ) → Stays (update_active b n)
      unfolding update_active take_command
      update_active-Stays n = search (move_rules, fall_back-Stays, after_command-Stays) depth 30

-- A step keeps what each move from its state keeps, and each command.
module _ (b : Bus) (P : State → Tag → Type 0) where
  pub update_from-Stays :
      (before : State)
      → ((s : State) → Move before s → Stays b P (enter b s))
      → ((op : ℕ) (args : List ℕ) → Stays b P (serve_command b op args))
      → (debug : Bool) (n : ℕ) → Stays b P (update_from b before debug n)
  unfolding update_from
  update_from-Stays off to served debug n =
      update_off-Stays b P (to off (gone off)) (to idle (sensed off)) n
  update_from-Stays idle to served debug n =
      update_idle-Stays b P (to off (gone idle)) (to idle (sensed idle)) (to ready asked) n
  update_from-Stays ready to served debug n =
      update_ready-Stays b P (to off (gone ready)) (to idle (sensed ready)) (to active chosen) debug
        n
  update_from-Stays active to served debug n =
      update_active-Stays b P (to off (gone active)) (to idle (sensed active)) (to halted sent_away)
        served n
  update_from-Stays halted to served debug n =
      update_idle-Stays b P (to off (gone halted)) (to idle (sensed halted)) (to ready asked_again)
        n

report-state : (b : Bus) (before : State) (e : Emulator b) → (report b before e).0.state ≡ e.state
unfolding report
report-state b before e = ground arith

-- Every step of `update` follows the diagram `Move`, the ones that end with an error too: `active` is
-- entered from `ready` alone, `ready` from `idle` and `halted`, and `halted` from `active`.
pub update_tag-Move :
    (b : Bus) (debug : Bool) (n : ℕ) (e : Emulator b)
    → Move e.state (update_tag b debug n e).0.state
unfolding update_tag ◌>>=◌ gets enter update serve_command
update_tag-Move b debug n e =
    let P = λ (s : State) (t : Tag). Move e.state s in
    let body =
      update_from-Stays b P e.state (λ s m. record { keep = λ d p. m })
        (λ op args. record { keep = λ d p. p }) debug n in
    let p = body.keep e (rest e.state) in
    continue-state (λ d. Move e.state d.state) (update_from b e.state debug n e)
      (λ u. report b e.state) p
      (λ u h.
        subst (Move e.state) (sym (report-state b e.state (update_from b e.state debug n e).0)) p)
