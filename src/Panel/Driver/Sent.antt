-- ===== src/Panel/Driver/Sent.antt =====
-- `refresh_fastest` of ssd1677/mod.rs on a controller that keeps what is sent.
use paper_name_plate.Base.{ℕ, ◌+◌, ◌-◌, min, ◌≡◌, refl, ap, ◌∙◌, List, [], ◌∷◌, ◌++◌}
use paper_name_plate.Base.{Bool, true, false, not, append-nil, append_assoc}
use paper_name_plate.Base.Results.{Result, ok}
use paper_name_plate.Base.Io.{pure, continue, update, gets, ◌>>=◌, ◌>>◌}
use paper_name_plate.Panel.Lut.{lut_fastest}
use paper_name_plate.Panel.Driver.{
  Screen, PanelIo, PanelError, on_wire, attempt, pause_us, select, deselect, send_bytes,
  send_command,
}
use paper_name_plate.Panel.Driver.{
  send_data, command_data, is_busy, busy_rounds, wait_busy, set_window, set_full_window,
}
use paper_name_plate.Panel.Driver.{set_fields, send_each, send_rows, byte_span}
use paper_name_plate.Panel.Driver.Refresh.{
  sequence_of, ensure_known_face, send_lut, after_activation, activate, each_row, bw_row, red_row,
  refresh_fastest,
}
use paper_name_plate.Panel.Driver.Chip.{Memory, controller, screen, joined}

send_each-bw :
    (rows : List (List ℕ)) (b r : List ℕ) (o on odd : Bool) (q : ℕ)
    → let m : Memory = record {
      data_mode = true;
      command = 0x24;
      bw = b;
      red = r;
      odd = o;
      sequence = q;
    } in
      send_each controller rows (screen m on odd)
      ≡ (screen (record m { bw = b ++ joined rows }) on odd, ok tt)
unfolding send_each on_wire ◌>>=◌ pure
send_each-bw [] b r o on odd q = rw (append-nil b) refl
send_each-bw (row ∷ rows) b r o on odd q =
    send_each-bw rows (b ++ row) r o on odd q ∙ rw (append_assoc b row (joined rows)) refl

send_each-red :
    (rows : List (List ℕ)) (b r : List ℕ) (o on odd : Bool) (q : ℕ)
    → let m : Memory = record {
      data_mode = true;
      command = 0x26;
      bw = b;
      red = r;
      odd = o;
      sequence = q;
    } in
      send_each controller rows (screen m on odd)
      ≡ (screen (record m { red = r ++ joined rows }) on odd, ok tt)
unfolding send_each on_wire ◌>>=◌ pure
send_each-red [] b r o on odd q = rw (append-nil r) refl
send_each-red (row ∷ rows) b r o on odd q =
    send_each-red rows b (r ++ row) o on odd q ∙ rw (append_assoc r row (joined rows)) refl

send_rows-bw :
    (rows : List (List ℕ)) (b r : List ℕ) (o on odd : Bool) (q : ℕ)
    → let m : Memory = record {
      data_mode = false;
      command = 0x24;
      bw = b;
      red = r;
      odd = o;
      sequence = q;
    } in
      send_rows controller rows (screen m on odd)
      ≡ (screen (record m { data_mode = true; bw = b ++ joined rows }) on odd, ok tt)
unfolding send_rows select deselect on_wire ◌>>=◌
send_rows-bw rows b r o on odd q = rw (send_each-bw rows b r o on odd q) refl

send_rows-red :
    (rows : List (List ℕ)) (b r : List ℕ) (o on odd : Bool) (q : ℕ)
    → let m : Memory = record {
      data_mode = false;
      command = 0x26;
      bw = b;
      red = r;
      odd = o;
      sequence = q;
    } in
      send_rows controller rows (screen m on odd)
      ≡ (screen (record m { data_mode = true; red = r ++ joined rows }) on odd, ok tt)
unfolding send_rows select deselect on_wire ◌>>=◌
send_rows-red rows b r o on odd q = rw (send_each-red rows b r o on odd q) refl

-- Frames of known bytes are computed.
begins-bw :
    (h : Bool) (c : ℕ) (b r : List ℕ) (o on odd : Bool) (q : ℕ)
    → (ensure_known_face controller >> set_full_window controller >> send_command controller 0x24) (
        screen
          (record { data_mode = h; command = c; bw = b; red = r; odd = o; sequence = q })
          on
          odd)
      ≡ (
        screen
            (record { data_mode = false; command = 0x24; bw = []; red = r; odd = o; sequence = q })
            on
            odd,
        ok tt,
      )
unfolding ensure_known_face set_full_window set_window command_data send_command send_data
    send_bytes select deselect on_wire attempt ◌>>=◌ pure gets
begins-bw h c b r o on odd q = refl

begins-red :
    (b r : List ℕ) (o on odd : Bool) (q : ℕ)
    → (set_full_window controller >> send_command controller 0x26) (
        screen
          (record { data_mode = true; command = 0x24; bw = b; red = r; odd = o; sequence = q })
          on
          odd)
      ≡ (
        screen
            (record { data_mode = false; command = 0x26; bw = b; red = []; odd = o; sequence = q })
            on
            odd,
        ok tt,
      )
unfolding set_full_window set_window command_data send_command send_data send_bytes select deselect
    on_wire attempt ◌>>=◌ pure gets
begins-red b r o on odd q = refl

ends :
    (b r : List ℕ) (o on odd : Bool) (q : ℕ)
    → (send_lut controller lut_fastest >> activate controller 0x00 0x0C 5000) (
        screen
          (record { data_mode = true; command = 0x26; bw = b; red = r; odd = o; sequence = q })
          on
          odd)
      ≡ (
        screen
            (record {
              data_mode = false;
              command = 0x20;
              bw = b;
              red = r;
              odd = not o;
              sequence = sequence_of on 0x0C;
            })
            true
            (not odd),
        ok tt,
      )
unfolding command_data send_command send_data send_bytes send_lut activate after_activation
    set_fields update wait_busy busy_rounds is_busy pause_us select deselect on_wire attempt ◌>>=◌
    pure gets
ends b r o true odd q = refl
ends b r o false odd q = refl

abbrev Out : Type 0
Out = Screen controller × Result (PanelError (Unit {0}) (Unit {0})) (Unit {0})

abbrev fastest_with : List (List ℕ) → List (List ℕ) → PanelIo controller (Unit {0})
fastest_with bws reds =
    ensure_known_face controller
    >> set_full_window controller
    >> send_command controller 0x24
    >> send_rows controller bws
    >> set_full_window controller
    >> send_command controller 0x26
    >> send_rows controller reds
    >> send_lut controller lut_fastest
    >> activate controller 0x00 0x0C 5000

chain :
    (bws reds : List (List ℕ)) (hi : Bool) (c : ℕ) (b r : List ℕ) (o on odd : Bool) (q : ℕ)
    → fastest_with bws reds (
        screen
          (record { data_mode = hi; command = c; bw = b; red = r; odd = o; sequence = q })
          on
          odd)
      ≡ (
        screen
            (record {
              data_mode = false;
              command = 0x20;
              bw = joined bws;
              red = joined reds;
              odd = not o;
              sequence = sequence_of on 0x0C;
            })
            true
            (not odd),
        ok tt,
      )
unfolding ◌>>=◌
chain bws reds hi c b r o on odd q =
    let last = λ (t : Out).
      continue (continue t (λ u. send_lut controller lut_fastest))
        (λ u. activate controller 0x00 0x0C 5000) in
    let second = λ (t : Out). last (continue t (λ u. send_rows controller reds)) in
    let window = λ (t : Out). second (
      continue (continue t (λ u. set_full_window controller))
        (λ u. send_command controller 0x26)) in
    ap (λ t. window (continue t (λ u. send_rows controller bws))) (begins-bw hi c b r o on odd q)
    ∙ ap window (send_rows-bw bws [] r o on odd q)
    ∙ ap second (begins-red (joined bws) r o on odd q)
    ∙ ap last (send_rows-red reds (joined bws) [] o on odd q)
    ∙ ends (joined bws) (joined reds) o on odd q

-- What `refresh_fastest` leaves of a controller and of the driver that knows its face: the planes have
-- the rows that it builds, the supplies are on, and both faces are turned.
pub refresh_fastest_lem :
    (new old_lsb old_msb : List ℕ) (x0 w y0 h : ℕ) (hi : Bool) (c : ℕ) (b r : List ℕ)
    (o on odd : Bool) (q : ℕ)
    → let (first, n) = byte_span x0 w in
      let bottom = min (y0 + h - 1) 479 in
      refresh_fastest controller new old_lsb old_msb x0 w y0 h (
        screen
          (record { data_mode = hi; command = c; bw = b; red = r; odd = o; sequence = q })
          on
          odd)
      ≡ (
        screen
            (record {
              data_mode = false;
              command = 0x20;
              bw = joined (each_row (bw_row new old_msb first n y0 bottom) 480 0);
              red = joined (each_row (red_row new old_lsb old_msb first n y0 bottom) 480 0);
              odd = not o;
              sequence = sequence_of on 0x0C;
            })
            true
            (not odd),
        ok tt,
      )
unfolding refresh_fastest ◌>>=◌
refresh_fastest_lem new old_lsb old_msb x0 w y0 h hi c b r o on odd q =
    let (first, n) = byte_span x0 w in
    let bottom = min (y0 + h - 1) 479 in
    chain (each_row (bw_row new old_msb first n y0 bottom) 480 0)
      (each_row (red_row new old_lsb old_msb first n y0 bottom) 480 0) hi c b r o on odd q
