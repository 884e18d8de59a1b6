-- ===== src/Panel/Driver.antt =====
-- `Ssd1677` of ssd1677/mod.rs: frames, waits, bring-up and the memory of the panel's controller.
pub mod Refresh
pub mod Classes
pub mod Spans
pub mod Glass
pub mod Chip
pub mod Sent
pub mod Shown
use paper_name_plate.Base.{
  ℕ, zero, suc, ◌+◌, ◌-◌, ◌*◌, ◌/◌, ◌%◌, ◌^◌, min, List, [], ◌∷◌, map, Bool, true, false, not,
}
use paper_name_plate.Base.{
  bit_and, bit_or, leb, ltb, ◌==◌, ◌&&◌, ◌||◌, if◌then◌else◌, take, drop, length,
}
use paper_name_plate.Base.Results.{Result, ok, err}
use paper_name_plate.Base.Io.{Io, pure, fail, continue, map_error, ◌>>=◌, ◌>>◌, update, gets, lift}
use paper_name_plate.Panel.FrameBuffer.{row_bytes}

-- What the driver asks of embedded-hal: the SPI bus, the pins D/C, CS and BUSY, and a delay, with
-- everything that is connected to them.
pub record Wire : Type 1 where
  pub State : Type 0
  pub SpiError : Type 0
  pub PinError : Type 0
  pub spi_write : List ℕ → Io State SpiError (Unit {0})
  pub spi_flush : Io State SpiError (Unit {0})
  pub set_dc : (high : Bool) → Io State PinError (Unit {0})
  pub set_cs : (high : Bool) → Io State PinError (Unit {0})
  pub busy_is_high : Io State PinError Bool
  pub wait : (us : ℕ) → State → State

pub data PanelError (S P : Type 0) : Type 0 where
  spi : S → PanelError S P
  pin : P → PanelError S P
  busy_timeout : PanelError S P

abbrev pub ram_x_pixels : ℕ
ram_x_pixels = 800

abbrev pub ram_y_lines : ℕ
ram_y_lines = 480

-- The low and the high byte of a word.
abbrev pub le16 : ℕ → List ℕ
le16 v = v % 256 ∷ v / 256 % 256 ∷ []

-- A window of the memory, with its ends: the parameters of the commands `SET_RAM_X` and the like.
abbrev pub ends16 : ℕ → ℕ → List ℕ
ends16 a e = a % 256 ∷ a / 256 % 256 ∷ e % 256 ∷ e / 256 % 256 ∷ []

-- `!*s` on every byte
abbrev pub inverted : List ℕ → List ℕ
inverted = map (λ s. 255 - s)

-- `n` rows of a plane: `bytes` bytes of each, from its byte `first` on.
abbrev pub rows_of : ℕ → (first bytes : ℕ) → List ℕ → List (List ℕ)
rows_of zero first bytes plane = []
rows_of (suc n) first bytes plane =
    take bytes (drop first plane) ∷ rows_of n first bytes (drop row_bytes plane)

-- The first byte of a row that a window touches, and how many, for a window within the panel.
unfoldable pub byte_span : ℕ → ℕ → ℕ × ℕ
byte_span x0 w =
    let xs = x0 / 8 * 8 in
    let xe = min (bit_or (x0 + w - 1) 7) (ram_x_pixels - 1) in (xs / 8, (xe - xs + 1) / 8)

module _ (x : Wire) where
  open x use {State, SpiError, PinError, spi_write, spi_flush, set_dc, set_cs, busy_is_high, wait}

  -- The wire, and the driver's own fields but for its scratch row, which is filled before each use.
  pub record Screen : Type 0 where
    pub wire : State
    pub screen_on : Bool
    pub face_odd : Bool
    pub face_known : Bool

  abbrev pub PanelIo : Type 0 → Type 0
  PanelIo A = Io Screen (PanelError SpiError PinError) A

  -- A call of the SPI bus or of a pin.
  unfoldable pub on_wire :
      {E A : Type 0} → (E → PanelError SpiError PinError) → Io State E A → PanelIo A
  on_wire g m s = let r = m s.wire in (record s { wire = r.0 }, map_error g r.1)

  -- A call whose error is kept for later.
  unfoldable pub attempt : {E A : Type 0} → Io State E A → PanelIo (Result E A)
  attempt m s = let r = m s.wire in (record s { wire = r.0 }, ok r.1)

  abbrev pub now : Result SpiError (Unit {0}) → PanelIo (Unit {0})
  now (ok u) = pure tt
  now (err e) = fail (spi e)

  unfoldable pub pause_us : ℕ → PanelIo (Unit {0})
  pause_us us = update (λ s. record s { wire = wait us s.wire })

  unfoldable pub select : PanelIo (Unit {0})
  select = on_wire pin (set_cs false)

  unfoldable pub deselect : PanelIo (Unit {0})
  deselect = on_wire pin (set_cs true)

  -- Bytes with D/C at a level; an error of their transfer comes back behind the end of the frame.
  unfoldable pub send_bytes : Bool → List ℕ → PanelIo (Unit {0})
  unfolding select deselect
  send_bytes dc bytes = do
    select
    on_wire pin (set_dc dc)
    r ← attempt (spi_write bytes)
    on_wire spi spi_flush
    deselect
    now r

  unfoldable pub send_command : ℕ → PanelIo (Unit {0})
  unfolding send_bytes
  send_command c = send_bytes false (c ∷ [])

  unfoldable pub send_data : List ℕ → PanelIo (Unit {0})
  unfolding send_bytes
  send_data [] = pure tt
  send_data (v ∷ vs) = send_bytes true (v ∷ vs)

  unfoldable pub command_data : ℕ → List ℕ → PanelIo (Unit {0})
  unfolding send_command send_data
  command_data c bytes = send_command c >> send_data bytes

  unfoldable pub is_busy : PanelIo Bool
  is_busy = on_wire pin busy_is_high

  -- The loop of `wait_busy`, with `left` milliseconds before the timeout.
  unfoldable pub busy_rounds : ℕ → PanelIo (Unit {0})
  unfolding is_busy
  busy_rounds zero = do busy ← is_busy; if busy then fail busy_timeout else pure tt
  busy_rounds (suc left) = do
    busy ← is_busy
    (if busy then pause_us 1000 >> busy_rounds left else pure tt)

  unfoldable pub wait_busy : ℕ → PanelIo (Unit {0})
  unfolding busy_rounds
  wait_busy timeout_ms = pause_us 2000 >> busy_rounds timeout_ms

  -- `set_window`, for a window of one pixel at least: its first and last column and row.
  unfoldable pub set_window : ℕ → ℕ → ℕ → ℕ → PanelIo (Unit {0})
  unfolding command_data
  set_window left top w h =
      command_data 0x11 (0x03 ∷ [])
      >> command_data 0x44 (ends16 left (left + w - 1))
      >> command_data 0x45 (ends16 top (top + h - 1))
      >> command_data 0x4E (le16 left)
      >> command_data 0x4F (le16 top)

  unfoldable pub set_full_window : PanelIo (Unit {0})
  unfolding set_window
  set_full_window = set_window 0 0 ram_x_pixels ram_y_lines

  unfoldable pub set_fields : (on odd known : Bool) → PanelIo (Unit {0})
  set_fields on odd known =
      update (λ s. record s { screen_on = on; face_odd = odd; face_known = known })

  unfoldable pub init_panel : PanelIo (Unit {0})
  unfolding wait_busy send_command command_data set_full_window set_fields
  init_panel =
      wait_busy 500
      >> send_command 0x12
      >> pause_us 10000
      >> wait_busy 500
      >> command_data 0x18 (0x80 ∷ [])
      >> command_data 0x0C (0xAE ∷ 0xC7 ∷ 0xC3 ∷ 0xC0 ∷ 0x40 ∷ [])
      >> command_data 0x01 ((ram_y_lines - 1) % 256 ∷ (ram_y_lines - 1) / 256 ∷ 0x02 ∷ [])
      >> command_data 0x3C (0x01 ∷ [])
      >> command_data 0x21 (0x00 ∷ [])
      >> set_full_window
      >> command_data 0x46 (0xF7 ∷ [])
      >> wait_busy 500
      >> command_data 0x47 (0xF7 ∷ [])
      >> wait_busy 500
      >> set_fields false false true

  -- Every row in one frame, an error of the bus ending it at once.
  unfoldable pub send_each : List (List ℕ) → PanelIo (Unit {0})
  send_each [] = pure tt
  send_each (r ∷ rows) = do on_wire spi (spi_write r); send_each rows

  unfoldable pub send_rows : List (List ℕ) → PanelIo (Unit {0})
  unfolding select deselect send_each
  send_rows rows = do
    select
    on_wire pin (set_dc true)
    send_each rows
    on_wire spi spi_flush
    deselect

  -- `write_plane`
  unfoldable pub write_plane : ℕ → List ℕ → Bool → PanelIo (Unit {0})
  unfolding set_full_window send_command send_data send_rows
  write_plane ram plane invert =
      set_full_window
      >> send_command ram
      >> (if invert
          then send_rows (map inverted (rows_of ram_y_lines 0 row_bytes plane))
          else send_data plane)

  -- `write_plane_rect`, for a window within the panel.
  unfoldable pub write_plane_rect : ℕ → List ℕ → ℕ → ℕ → ℕ → ℕ → Bool → PanelIo (Unit {0})
  unfolding byte_span set_window send_command send_rows
  write_plane_rect ram plane x0 y0 w h invert =
      let (first, bytes) = byte_span x0 w in
      let rows = rows_of h first bytes (drop (y0 * row_bytes) plane) in
      set_window (first * 8) y0 (bytes * 8) h
      >> send_command ram
      >> send_rows (if invert then map inverted rows else rows)
