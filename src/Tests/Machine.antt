-- ===== src/Tests/Machine.antt =====
-- The application on a machine whose chips never fail.
use paper_name_plate.Tests.Pixels.{quarter}
use paper_name_plate.Base.{ℕ, ◌+◌, ◌*◌, ◌≡◌, refl, arith, List, [], ◌∷◌, Bool, true, false, not}
use paper_name_plate.Base.{none, some, if◌then◌else◌, length, replicate, length-replicate}
use paper_name_plate.Base.Results.{Result, ok}
use paper_name_plate.Bus.{Bus}
use paper_name_plate.Plate.Image.{encode}
use paper_name_plate.Plate.Content.{PlateContent, demo}
use paper_name_plate.Text.Utf8.{as_bytes, encode_char}
use paper_name_plate.Plate.Ndef.Write.{to_ndef}
use paper_name_plate.Plate.Ndef.RoundTrip.{received}
use paper_name_plate.Storage.Record.{load, save, load_image, save_image}
use paper_name_plate.Tag.Memory.{found, ndef, mem_bytes}
use paper_name_plate.Tag.Memory.Layout.{new_memory_lem}
use paper_name_plate.App.{Machine, App}
use paper_name_plate.App.Display.{with_image, stored_image, shown}
use paper_name_plate.App.Store.{commit_content, restore, on_ble_image}
use paper_name_plate.App.Store.Committed.{commit_content-agrees}
use paper_name_plate.App.Store.Restored.{image_or, restore-commit_content}
use paper_name_plate.App.Store.Images.{pictured, on_ble_image-shown}
use paper_name_plate.App.Inputs.Holds.{polled, any_late, press_switches}
use paper_name_plate.App.Start.{new_app, start_app}
use paper_name_plate.App.Session.{Gatt, did_work}
use paper_name_plate.Tests.Receiver.{image_session, image_session-OfBytes}
use paper_name_plate.App.Whole.Sessions.{sessions, sessions-IsWhole}
use paper_name_plate.Plate.Ndef.Images.{IsWhole}
use paper_name_plate.Tests.Data.{checks, checks-IsImage}
use paper_name_plate.Tests.Content.{bare_card, bare_card-IsPlain, bare_card-IsSent, bare_card-Fits}
use paper_name_plate.Tests.Store.{ram, erased}
use paper_name_plate.Tests.Screen.{quiet}

abbrev zeros : ℕ → Result (Unit {0}) (List ℕ)
zeros n = ok (replicate n 0)

zeros_fill : (n : ℕ) (bs : List ℕ) → zeros n ≡ ok bs → length bs ≡ n
zeros_fill n bs h = ground (arith, length-replicate {A = ℕ} n 0)

abbrev calm : Bus
calm = record {
  State = Unit {0};
  BusError = Unit {0};
  write = λ addr tx s. (s, ok tt);
  write_read = λ addr tx n s. (s, zeros n);
  wait = λ us s. s;
  write_read_fills = λ addr tx n s bs h. zeros_fill n bs h;
}

-- The cells of the flash, the time, and button A.
abbrev Desk : Type 0
Desk = (ℕ → ℕ) × ℕ × Bool

abbrev desk : Machine
desk = record {
  World = Desk;
  bus = calm;
  wire = quiet;
  flash = ram;
  bus_of = λ w. tt;
  wire_of = λ w. tt;
  flash_of = λ w. w.0;
  with_bus = λ w s. w;
  with_wire = λ w s. w;
  with_flash = λ w s. (s, w.1, w.2);
  now = λ w. w.1;
  sleep_ms = λ ms w. (w.0, w.1 + ms * 1000, w.2);
  tp_int_high = λ w. true;
  nfc_irq_high = λ w. false;
  button_a_low = λ w. w.2;
  button_b_low = λ w. false;
  usb_frame = λ w. 0;
  rtc_ms = λ w. w.1;
  fonts = record { geometry = quarter; render_aligned = λ f s x y c. [] };
  graphics = record { geometry = quarter; text = λ l s x y c. []; outline = λ x y w h c s. [] };
  flash_of-with_flash = λ w s. refl;
  flash_of-with_bus = λ w s. refl;
  flash_of-with_wire = λ w s. refl;
  flash_of-sleep_ms = λ w ms. refl;
}

-- At a time, with button A up or down.
abbrev at : ℕ → Bool → Desk
at t down = (erased, t, down)

abbrev started : Desk → App desk
started w =
    new_app desk w (record { wire = tt; screen_on = false; face_odd = false; face_known = true })
      (record { bus = tt; pending_irq = 0; last_request_irq = 0 }) false false

abbrev showing : PlateContent → App desk
showing c = record (started (at 0 false)) { content = c }

memory_whole : (c : PlateContent) → length (showing c).emu.tag.memory ≡ mem_bytes
memory_whole c = (new_memory_lem 0x04 0x50 0x41 0x50 0x45 0x52 0x01).0

-- Polls at 0 s, 0.5 s and 2 s.
press_switches_example :
    (polled desk (at 0 true ∷ at 500000 true ∷ at 2000000 true ∷ []) (started (at 0 false))).emulate
    ≡ (if any_late desk 0 (at 500000 true ∷ at 2000000 true ∷ []) then not true else true)
press_switches_example =
    press_switches desk (started (at 0 false)) (at 0 true) (at 500000 true ∷ at 2000000 true ∷ [])
      refl (refl, (refl, (refl, tt)))

-- The bare card, on an application whose flash then starts the next one.
abbrev left : Desk
left = (commit_content desk (showing bare_card)).0.world

commit_content-agrees_example :
    ((commit_content desk (showing bare_card)).1 ≡ ok tt)
    × (load ram (commit_content desk (showing bare_card)).0.world.0 ≡ some (to_ndef bare_card))
    × (ndef (commit_content desk (showing bare_card)).0.emu.tag.memory ≡ found (to_ndef bare_card))
    × ((commit_content desk (showing bare_card)).0.content ≡ bare_card)
unfolding as_bytes encode_char to_ndef
commit_content-agrees_example =
    commit_content-agrees desk (showing bare_card) (omega arith) (memory_whole bare_card)
      (omega arith) (omega arith) (unfold save in refl) tt

restore-commit_content_example :
    ((restore desk (started left)).1 ≡ ok tt)
    × ((restore desk (started left)).0.content
        ≡ with_image
            (image_or (stored_image desk (started left)) none)
            (received bare_card (started left).content))
unfolding as_bytes encode_char to_ndef demo
restore-commit_content_example =
    restore-commit_content desk (showing bare_card) (started left) (omega arith)
      (memory_whole bare_card) bare_card-IsPlain bare_card-IsSent bare_card-Fits refl
      (unfold save in refl) refl

on_ble_image-shown_example :
    ((on_ble_image desk checks (showing bare_card)).1 ≡ ok tt)
    × (shown desk (on_ble_image desk checks (showing bare_card)).0
        ≡ pictured desk checks (showing bare_card))
    × (load_image ram (on_ble_image desk checks (showing bare_card)).0.world.0
        ≡ some (encode checks))
    × (load ram (on_ble_image desk checks (showing bare_card)).0.world.0
        ≡ some (to_ndef (pictured desk checks (showing bare_card))))
    × (ndef (on_ble_image desk checks (showing bare_card)).0.emu.tag.memory
        ≡ found (to_ndef (pictured desk checks (showing bare_card))))
unfolding as_bytes encode_char encode to_ndef
on_ble_image-shown_example =
    on_ble_image-shown desk checks (showing bare_card) (omega arith) checks-IsImage
      (memory_whole bare_card) (omega arith) (omega arith) (unfold save_image in refl)
      (unfold save in refl)

-- A client that sends an image in every round of work.
abbrev client : Gatt desk
client = record {
  have_data = λ w. true;
  work = λ n w. (w, image_session, did_work);
  advertise_off = λ w. (w, true);
  work_bytes = λ n w. image_session-OfBytes;
}

abbrev behind_sessions : App desk
behind_sessions =
    sessions desk client 2 1 false (3 ∷ 2 ∷ []) (start_app desk false (started left)).0

sessions-IsWhole_example :
    IsWhole behind_sessions.content.image × IsWhole (shown desk behind_sessions).image
unfolding demo
sessions-IsWhole_example =
    sessions-IsWhole desk client 2 1 false (3 ∷ 2 ∷ []) false (started left) refl
