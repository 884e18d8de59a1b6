-- ===== src/App/Whole/Ticks.antt =====
-- The image of the content in the main loop of app/mod.rs, with the emulated tag and the reader.
use paper_name_plate.Base.{ℕ, zero, suc, ◌≡◌, refl, sym, subst, List, Bool, false}
use paper_name_plate.Base.{Option, none, some}
use paper_name_plate.Base.Results.{Result, ok, err}
use paper_name_plate.Base.Io.{◌>>=◌, update, Keeps, Keeps-update}
use paper_name_plate.Text.Utf8.{Str}
use paper_name_plate.Plate.Ndef.Images.{IsWhole}
use paper_name_plate.Nfc.Driver.{NfcError, i2c}
use paper_name_plate.Nfc.Poll.{NfcaTag, PollError, failed, out_of_range}
use paper_name_plate.IsoDep.{IsoDep, Error}
use paper_name_plate.Reader.Type4.{ReadError}
use paper_name_plate.Tag.States.{
  Event, nothing, selected, field_off as off_event, StopError, bus_error, too_deep,
}
use paper_name_plate.App.{Machine, App, Done}
use paper_name_plate.App.Kept.{On}
use paper_name_plate.App.Tags.{
  note_field, after_start, after_update, slice_round, slice_rounds, serve_slice,
  run_emulation_slice, count_tag, set_last_tag, detail_read, after_activate, read_tag, with_detail,
  draw_tag, on_new_tag, forget_tag, found_tag, after_poll, poll_field, after_field_on, poll_nfc,
}
use paper_name_plate.App.Loop.{tick_emulation, tick_nfc, tick}
use paper_name_plate.App.Whole.{Shows, calls_show, delay_ms-Shows, on_tag_written-Shows}
use paper_name_plate.App.Whole.Controls.{
  refresh_panel_region-Shows, manage_epd_sleep-Shows, handle_touch-Shows, set_running-Shows,
  handle_buttons-Shows, heartbeat-Shows, auto_switch-Shows, count_poll-Shows,
}

module _ (m : Machine) where
  open m use {bus, flash}

  module _ (depth rounds : ℕ) (debug : Bool) where
    note_field-Shows : Keeps (On m (Shows m)) (note_field m depth rounds debug)
    unfolding note_field
    note_field-Shows = Keeps-update _ (λ a h. h)

    after_update-Shows :
        (again : Done m)
        → Keeps (On m (Shows m)) again
        → (r : Result (StopError bus.BusError) Event)
        → Keeps (On m (Shows m)) (after_update m depth rounds debug again r)
    after_update-Shows again h (ok nothing) = search calls_show depth 20
    after_update-Shows again h (ok Event.field_on) = search (calls_show, note_field-Shows) depth 20
    after_update-Shows again h (ok selected) = search (calls_show, note_field-Shows) depth 20
    after_update-Shows again h (ok (off_event written)) =
        search (calls_show, note_field-Shows, on_tag_written-Shows) depth 20
    after_update-Shows again h (err (bus_error e)) = set_running-Shows m false
    after_update-Shows again h (err too_deep) = search calls_show depth 20

    slice_round-Shows :
        (t0 ms : ℕ) (again : Done m)
        → Keeps (On m (Shows m)) again
        → Keeps (On m (Shows m)) (slice_round m depth rounds debug t0 ms again)
    unfolding slice_round
    slice_round-Shows t0 ms again h = search (calls_show, after_update-Shows) depth 20

    slice_rounds-Shows :
        (n t0 ms : ℕ) → Keeps (On m (Shows m)) (slice_rounds m depth rounds debug n t0 ms)
    unfolding slice_rounds
    slice_rounds-Shows zero t0 ms = search calls_show depth 20
    slice_rounds-Shows (suc n) t0 ms = slice_round-Shows t0 ms _ (slice_rounds-Shows n t0 ms)

    serve_slice-Shows : (ms : ℕ) → Keeps (On m (Shows m)) (serve_slice m depth rounds debug ms)
    unfolding serve_slice
    serve_slice-Shows ms =
        search (calls_show, note_field-Shows, set_running-Shows, slice_rounds-Shows) depth 20

    after_start-Shows :
        (next : Done m)
        → Keeps (On m (Shows m)) next
        → (r : Result (StopError (NfcError bus.BusError)) (Unit {0}))
        → Keeps (On m (Shows m)) (after_start m depth rounds debug next r)
    after_start-Shows next h (ok u) = search (calls_show, set_running-Shows) depth 20
    after_start-Shows next h (err (bus_error e)) = search calls_show depth 20
    after_start-Shows next h (err too_deep) = search calls_show depth 20

    run_emulation_slice-Shows :
        (ms : ℕ) → Keeps (On m (Shows m)) (run_emulation_slice m depth rounds debug ms)
    unfolding run_emulation_slice
    run_emulation_slice-Shows ms =
        search (calls_show, serve_slice-Shows, after_start-Shows) depth 30

    count_tag-Shows : Keeps (On m (Shows m)) (count_tag m depth rounds debug)
    unfolding count_tag
    count_tag-Shows = Keeps-update _ (λ a h. h)

    set_last_tag-Shows :
        (t : Option NfcaTag) → Keeps (On m (Shows m)) (set_last_tag m depth rounds debug t)
    unfolding set_last_tag
    set_last_tag-Shows t = Keeps-update _ (λ a h. h)

    detail_read-Shows :
        (r : Result
          (Error (NfcError bus.BusError))
          (IsoDep × Result (ReadError (Error (NfcError bus.BusError))) (List ℕ)))
        → Keeps (On m (Shows m)) (detail_read m depth rounds debug r)
    detail_read-Shows (ok (d, r)) = search calls_show depth 20
    detail_read-Shows (err e) = search calls_show depth 20

    after_activate-Shows :
        (r : Result (Error (NfcError bus.BusError)) IsoDep)
        → Keeps (On m (Shows m)) (after_activate m depth rounds debug r)
    after_activate-Shows (ok d) = search (calls_show, detail_read-Shows) depth 20
    after_activate-Shows (err e) = search calls_show depth 20

    read_tag-Shows : (tag : NfcaTag) → Keeps (On m (Shows m)) (read_tag m depth rounds debug tag)
    unfolding read_tag
    read_tag-Shows tag = search (calls_show, after_activate-Shows) depth 30

    with_detail_content :
        (d : Option Str) (a : App m) → (with_detail m depth rounds debug d a).content ≡ a.content
    with_detail_content none a = refl
    with_detail_content (some s) a = refl

    draw_tag-Shows :
        (tag : NfcaTag) (d : Option Str) (t2 : Option (List ℕ))
        → Keeps (On m (Shows m)) (draw_tag m depth rounds debug tag d t2)
    unfolding draw_tag
    draw_tag-Shows tag d t2 =
        Keeps-update _ (λ a h. subst (λ c. IsWhole c.image) (sym (with_detail_content d _)) h)

    found_tag-Shows : (tag : NfcaTag) → Keeps (On m (Shows m)) (found_tag m depth rounds debug tag)
    unfolding found_tag on_new_tag
    found_tag-Shows tag =
        search
          (
            calls_show, count_tag-Shows, read_tag-Shows, draw_tag-Shows, refresh_panel_region-Shows,
            set_last_tag-Shows,
          )
          depth 40

    forget_tag-Shows : Keeps (On m (Shows m)) (forget_tag m depth rounds debug)
    unfolding forget_tag
    forget_tag-Shows = search (calls_show, set_last_tag-Shows) depth 20

    after_poll-Shows :
        (r : Result (PollError bus.BusError) (Option NfcaTag))
        → Keeps (On m (Shows m)) (after_poll m depth rounds debug r)
    after_poll-Shows (ok (some tag)) = found_tag-Shows tag
    after_poll-Shows (ok none) = forget_tag-Shows
    after_poll-Shows (err out_of_range) = search calls_show depth 20
    after_poll-Shows (err (failed (i2c e))) = search (calls_show, delay_ms-Shows) depth 20
    after_poll-Shows (err (failed (NfcError.not_found i))) = search calls_show depth 20
    after_poll-Shows (err (failed NfcError.oscillator)) = search calls_show depth 20
    after_poll-Shows (err (failed NfcError.timeout)) = search calls_show depth 20
    after_poll-Shows (err (failed (NfcError.rx_error f))) = search calls_show depth 20
    after_poll-Shows (err (failed NfcError.protocol)) = search calls_show depth 20
    after_poll-Shows (err (failed NfcError.collision)) = search calls_show depth 20

    poll_field-Shows : (duty : Bool) → Keeps (On m (Shows m)) (poll_field m depth rounds debug duty)
    unfolding poll_field
    poll_field-Shows duty = search (calls_show, after_poll-Shows) depth 30

    after_field_on-Shows :
        {E : Type 0} (r : Result E (Unit {0}))
        → Keeps (On m (Shows m)) (after_field_on m depth rounds debug r)
    after_field_on-Shows (ok u) = search (calls_show, delay_ms-Shows, poll_field-Shows) depth 20
    after_field_on-Shows (err e) = search calls_show depth 20

    poll_nfc-Shows : Keeps (On m (Shows m)) (poll_nfc m depth rounds debug)
    unfolding poll_nfc
    poll_nfc-Shows = search (calls_show, after_field_on-Shows, poll_field-Shows) depth 30

    tick_nfc-Shows :
        (allow : Bool) (ms : ℕ) → Keeps (On m (Shows m)) (tick_nfc m depth rounds debug allow ms)
    unfolding tick_nfc tick_emulation ◌>>=◌ update
    tick_nfc-Shows allow ms =
        search (calls_show, run_emulation_slice-Shows, count_poll-Shows, poll_nfc-Shows) depth 40

    pub tick-Shows :
        (allow : Bool) (ms : ℕ) → Keeps (On m (Shows m)) (tick m depth rounds debug allow ms)
    unfolding tick
    tick-Shows allow ms =
        search
          (
            calls_show, tick_nfc-Shows, handle_touch-Shows, handle_buttons-Shows, auto_switch-Shows,
            manage_epd_sleep-Shows, heartbeat-Shows,
          )
          depth 40
