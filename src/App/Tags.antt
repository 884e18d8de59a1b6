-- ===== src/App/Tags.antt =====
-- NFC in app/mod.rs: the emulated tag's share of time, and the reader.
use paper_name_plate.Base.{ℕ, zero, suc, ◌+◌, ◌%◌, ◌^◌, List, Bool, true, false, not, ◌&&◌, ◌||◌}
use paper_name_plate.Base.{Option, none, some, ltb, ◌==◌, bytes_eq, if◌then◌else◌}
use paper_name_plate.Base.Results.{Result, ok, err}
use paper_name_plate.Base.Io.{Io, pure, fail, ◌>>=◌, ◌>>◌, update, gets}
use paper_name_plate.Text.Utf8.{Str}
use paper_name_plate.Nfc.Driver.{NfcError, i2c, Chip}
use paper_name_plate.Nfc.Setup.{field_on, field_off, configure_nfca}
use paper_name_plate.Nfc.Transceive.{link_of}
use paper_name_plate.Nfc.Poll.{
  NfcaTag, uid_bytes, is_iso14443_4, has_random_uid, PollError, failed, out_of_range, nfca_poll,
  nfca_halt, t2t_read,
}
use paper_name_plate.IsoDep.{IsoDep, Error, activate, deselect}
use paper_name_plate.Reader.Type4.{ReadError, of_isodep, read_type4}
use paper_name_plate.Tag.States.{
  Event, nothing, selected, field_off as off_event, StopError, bus_error, too_deep,
}
use paper_name_plate.Tag.States.Update.{start, update_tag}
use paper_name_plate.App.Ui.{draw_tag_panel, draw_tag_detail, detail_of}
use paper_name_plate.App.{
  Machine, App, AppIo, Done, out_of_rounds, panicked, on_emu, on_nfc, elapsed_ms, note_activity,
  delay_ms, idle_sleep_ms,
}
use paper_name_plate.App.Display.{wake_epd, refresh_panel_region}
use paper_name_plate.App.Store.{on_tag_written}
use paper_name_plate.App.Inputs.{set_running}

abbrev pub tag_forget_ms : ℕ
tag_forget_ms = 1500

abbrev pub field_settle_ms : ℕ
field_settle_ms = 80

abbrev pub watchdog_ms : ℕ
watchdog_ms = 120000

-- Is a tag the one that was there? One with a random UID is, as long as such a one stays.
abbrev pub is_same : Option NfcaTag → NfcaTag → Bool
is_same none tag = false
is_same (some t) tag =
    bytes_eq (uid_bytes t) (uid_bytes tag) || (has_random_uid t && has_random_uid tag)

abbrev pub is_tag : Option NfcaTag → Bool
is_tag none = false
is_tag (some t) = true

-- `depth` and `rounds` bound the calls of `goto_off` and the rounds of the slice; `debug` says
-- whether the log is on.
module _ (m : Machine) (depth rounds : ℕ) (debug : Bool) where
  open m use {World, bus, now, graphics}

  unfoldable pub note_field : Done m
  note_field = update (λ a. record a { emu_last_field = now a.world })

  abbrev pub after_start : Done m → Result (StopError (NfcError bus.BusError)) (Unit {0}) → Done m
  after_start next (ok u) = set_running m true >> next
  after_start next (err (bus_error e)) = idle_sleep_ms m 1000
  after_start next (err too_deep) = fail out_of_rounds

  abbrev pub after_update : Done m → Result (StopError bus.BusError) Event → Done m
  after_update again (ok nothing) = idle_sleep_ms m 1 >> again
  after_update again (ok Event.field_on) = note_field >> (note_activity m >> again)
  after_update again (ok selected) = note_activity m >> (note_field >> again)
  after_update again (ok (off_event written)) =
      note_field >> (if written then on_tag_written m else again)
  after_update again (err (bus_error e)) = set_running m false
  after_update again (err too_deep) = fail out_of_rounds

  -- A round of the loop, from the time `t0` on, and what follows it.
  unfoldable pub slice_round : (t0 ms : ℕ) → Done m → Done m
  slice_round t0 ms again = do
    a ← gets (λ a. a)
    (if ltb (elapsed_ms m a t0) ms
        then on_emu m (update_tag bus debug depth) >>= after_update again
        else pure tt)

  unfoldable pub slice_rounds : ℕ → (t0 ms : ℕ) → Done m
  unfolding slice_round
  slice_rounds zero t0 ms = fail out_of_rounds
  slice_rounds (suc n) t0 ms = slice_round t0 ms (slice_rounds n t0 ms)

  -- Behind the start: if no field was seen for long, the chip is started again the next time.
  unfoldable pub serve_slice : ℕ → Done m
  unfolding slice_rounds note_field
  serve_slice ms = do
    a ← gets (λ a. a)
    (if ltb watchdog_ms (elapsed_ms m a a.emu_last_field)
        then note_field >> set_running m false
        else slice_rounds rounds (now a.world) ms)

  unfoldable pub run_emulation_slice : ℕ → Done m
  unfolding serve_slice
  run_emulation_slice ms = do
    a ← gets (λ a. a)
    (if not a.nfc
        then idle_sleep_ms m ms
        else if a.emu_running
        then serve_slice ms
        else on_nfc m (field_off bus)
          >> (on_emu m (start bus depth) >>= after_start (serve_slice ms)))

  unfoldable pub count_tag : Done m
  count_tag = update (λ a. record a { tag_count = (a.tag_count + 1) % 2 ^ 32 })

  unfoldable pub set_last_tag : Option NfcaTag → Done m
  set_last_tag t = update (λ a. record a { last_tag = t })

  -- `read_type4` over the link of the chip: what it read, and the block number for the next frame.
  abbrev pub read_over :
      IsoDep
      → Io
          (Chip bus)
          (Error (NfcError bus.BusError))
          (IsoDep × Result (ReadError (Error (NfcError bus.BusError))) (List ℕ))
  read_over d c = let r = read_type4 (of_isodep (link_of bus)) (d, c) in (r.0.1, ok (r.0.0, r.1))

  abbrev pub halt_tag : Done m
  halt_tag = on_nfc m (nfca_halt bus) >> pure tt

  abbrev pub detail_read :
      Result
        (Error (NfcError bus.BusError))
        (IsoDep × Result (ReadError (Error (NfcError bus.BusError))) (List ℕ))
      → AppIo m (Option Str)
  detail_read (ok (d, r)) = on_nfc m (deselect (link_of bus) d) >> pure (some (detail_of r))
  detail_read (err e) = pure none

  abbrev pub after_activate : Result (Error (NfcError bus.BusError)) IsoDep → AppIo m (Option Str)
  after_activate (ok d) = on_nfc m (read_over d) >>= detail_read
  after_activate (err e) = halt_tag >> pure none

  abbrev pub block_read : {E : Type 0} → Result E (List ℕ) → Option (List ℕ)
  block_read (ok d) = some d
  block_read (err e) = none

  -- The line on a tag of type 4, and the first blocks of one of type 2.
  unfoldable pub read_tag : NfcaTag → AppIo m (Option Str × Option (List ℕ))
  read_tag tag =
      if is_iso14443_4 tag
      then (do detail ← on_nfc m (activate (link_of bus)) >>= after_activate; pure (detail, none))
      else (do
        t2 ←
            if tag.sak == 0x00
            then (on_nfc m (t2t_read bus 0) >>= λ r. pure (block_read r))
            else pure none
        halt_tag
        pure (none, t2))

  abbrev pub with_detail : Option Str → App m → App m
  with_detail none a = a
  with_detail (some d) a = record a { fb = draw_tag_detail graphics d a.fb }

  unfoldable pub draw_tag : NfcaTag → Option Str → Option (List ℕ) → Done m
  draw_tag tag detail t2 =
      update (λ a.
        with_detail detail (record a { fb = draw_tag_panel graphics tag a.tag_count t2 a.fb }))

  unfoldable pub on_new_tag : NfcaTag → Done m
  unfolding count_tag read_tag draw_tag set_last_tag
  on_new_tag tag = do
    wake_epd m
    count_tag
    r ← read_tag tag
    draw_tag tag r.0 r.1
    refresh_panel_region m
    set_last_tag (some tag)

  abbrev pub PollResult : Type 0
  PollResult = Result (PollError bus.BusError) (Option NfcaTag)

  abbrev pub found_none : PollResult → Bool
  found_none (ok none) = true
  found_none (ok (some t)) = false
  found_none (err e) = false

  unfoldable pub forget_tag : Done m
  unfolding set_last_tag
  forget_tag = do
    a ← gets (λ a. a)
    (if is_tag a.last_tag && ltb tag_forget_ms (elapsed_ms m a a.last_activity)
        then set_last_tag none
        else pure tt)

  unfoldable pub found_tag : NfcaTag → Done m
  unfolding on_new_tag
  found_tag tag = do
    note_activity m
    a ← gets (λ a. a)
    if is_same a.last_tag tag then halt_tag else on_new_tag tag

  -- An error of the bus sets the chip up again; any other is normal at the edge of the field.
  abbrev pub after_poll : PollResult → Done m
  after_poll (ok (some tag)) = found_tag tag
  after_poll (ok none) = forget_tag
  after_poll (err out_of_range) = fail panicked
  after_poll (err (failed (i2c e))) =
      on_nfc m (field_off bus) >> (delay_ms m 20 >> (on_nfc m (configure_nfca bus) >> pure tt))
  after_poll (err (failed (NfcError.not_found i))) = pure tt
  after_poll (err (failed NfcError.oscillator)) = pure tt
  after_poll (err (failed NfcError.timeout)) = pure tt
  after_poll (err (failed (NfcError.rx_error f))) = pure tt
  after_poll (err (failed NfcError.protocol)) = pure tt
  after_poll (err (failed NfcError.collision)) = pure tt

  -- The poll, with the field switched off behind it if it was on for the poll alone.
  unfoldable pub poll_field : Bool → Done m
  unfolding found_tag forget_tag
  poll_field duty = do
    r ← on_nfc m (nfca_poll bus)
    if duty && found_none r then on_nfc m (field_off bus) >> pure tt else pure tt
    after_poll r

  abbrev pub after_field_on : {E : Type 0} → Result E (Unit {0}) → Done m
  after_field_on (ok u) = delay_ms m field_settle_ms >> poll_field true
  after_field_on (err e) = pure tt

  unfoldable pub poll_nfc : Done m
  unfolding poll_field
  poll_nfc = do
    a ← gets (λ a. a)
    (if not a.nfc
        then pure tt
        else if not (is_tag a.last_tag) && not a.field_always_on
        then on_nfc m (field_on bus) >>= after_field_on
        else poll_field false)
