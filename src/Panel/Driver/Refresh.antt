-- ===== src/Panel/Driver/Refresh.antt =====
-- The activations of the panel and the refresh paths of ssd1677/mod.rs.
use paper_name_plate.Base.{
  ℕ, zero, suc, ◌+◌, ◌-◌, ◌*◌, min, List, [], ◌∷◌, ◌++◌, Bool, true, false, not,
}
use paper_name_plate.Base.{bit_and, bit_or, leb, ◌==◌, ◌&&◌, if◌then◌else◌, take, drop}
use paper_name_plate.Base.Io.{pure, ◌>>=◌, ◌>>◌, gets}
use paper_name_plate.Panel.FrameBuffer.{FrameBuffer, row_bytes}
use paper_name_plate.Panel.Lut.{lut_quality, lut_text, lut_fast, lut_fastest}
use paper_name_plate.Panel.Driver.{Wire, PanelIo, ram_y_lines, byte_span}
use paper_name_plate.Panel.Driver.{
  send_command, command_data, wait_busy, set_full_window, set_fields, init_panel,
}
use paper_name_plate.Panel.Driver.{send_rows, write_plane, write_plane_rect}

pub data GrayMode : Type 0 where
  quality text fast : GrayMode

-- The byte of the update sequence, with the supplies switched on if they are off.
abbrev pub sequence_of : Bool → ℕ → ℕ
sequence_of on c2 = if on then c2 else bit_or c2 0xC0

-- Bytes `first` to `first + n - 1` of the row `xs` are those of `ys`.
abbrev pub patched : (first n : ℕ) → List ℕ → List ℕ → List ℕ
patched first n xs ys = take first xs ++ take n (drop first ys) ++ drop n (drop first xs)

-- The class of the transition of eight pixels: new white goes from `l & m`, new black from `l | m`.
abbrev pub class_byte : (n l m : ℕ) → ℕ
class_byte n l m = bit_or (bit_and n (bit_and l m)) (bit_and (255 - n) (bit_or l m))

abbrev pub class_row : List ℕ → List ℕ → List ℕ → List ℕ
class_row [] ls ms = []
class_row (n ∷ ns) [] ms = []
class_row (n ∷ ns) (l ∷ ls) [] = []
class_row (n ∷ ns) (l ∷ ls) (m ∷ ms) = class_byte n l m ∷ class_row ns ls ms

-- Row `y` of a plane.
abbrev pub row_at : List ℕ → ℕ → List ℕ
row_at plane y = take row_bytes (drop (y * row_bytes) plane)

-- The rows from `y` on, `n` of them, each by a function of its number.
abbrev pub each_row : (ℕ → List ℕ) → ℕ → ℕ → List (List ℕ)
each_row f zero y = []
each_row f (suc n) y = f y ∷ each_row f n (y + 1)

-- A row of the old image, with the window replaced: by the new image, and by the classes.
unfoldable pub bw_row : (new_msb old_msb : List ℕ) → (first n top bottom y : ℕ) → List ℕ
bw_row new_msb old_msb first n top bottom y =
    if leb top y && leb y bottom
    then patched first n (row_at old_msb y) (row_at new_msb y)
    else row_at old_msb y

unfoldable pub red_row : (new_msb old_lsb old_msb : List ℕ) → (first n top bottom y : ℕ) → List ℕ
red_row new_msb old_lsb old_msb first n top bottom y =
    if leb top y && leb y bottom
    then patched first n (row_at old_msb y)
        (class_row (row_at new_msb y) (row_at old_lsb y) (row_at old_msb y))
    else row_at old_msb y

module _ (x : Wire) where
  unfoldable pub set_power : Bool → PanelIo x (Unit {0})
  set_power on = do
    already ← gets (λ s. if s.screen_on then on else not on)
    (if already then pure tt else (do
      command_data x 0x22 ((if on then 0xC0 else 0x03) ∷ [])
      send_command x 0x20
      wait_busy x 2000
      odd ← gets (λ s. s.face_odd)
      known ← gets (λ s. s.face_known)
      set_fields x on odd known))

  unfoldable pub deep_sleep : PanelIo x (Unit {0})
  unfolding set_power
  deep_sleep = do
    set_power false
    command_data x 0x10 (0x01 ∷ [])
    on ← gets (λ s. s.screen_on)
    odd ← gets (λ s. s.face_odd)
    set_fields x on odd false

  -- What an activation does to the fields: `c2` is the byte that was sent.
  unfoldable pub after_activation : ℕ → PanelIo x (Unit {0})
  after_activation c2 = do
    odd ← gets (λ s. s.face_odd)
    known ← gets (λ s. s.face_known)
    (if bit_and c2 0x08 == 0
        then set_fields x (bit_and c2 0x03 == 0) false true
        else set_fields x (bit_and c2 0x03 == 0) (if known then not odd else odd) known)

  unfoldable pub activate : ℕ → ℕ → ℕ → PanelIo x (Unit {0})
  unfolding after_activation
  activate ctrl1 c2 timeout_ms = do
    command_data x 0x21 (ctrl1 ∷ [])
    on ← gets (λ s. s.screen_on)
    command_data x 0x22 (sequence_of on c2 ∷ [])
    send_command x 0x20
    wait_busy x timeout_ms
    after_activation (sequence_of on c2)

  unfoldable pub ensure_known_face : PanelIo x (Unit {0})
  ensure_known_face = do known ← gets (λ s. s.face_known); if known then pure tt else init_panel x

  unfoldable pub send_lut : List ℕ → PanelIo x (Unit {0})
  send_lut lut =
      command_data x 0x32 (take 105 lut)
      >> command_data x 0x03 (take 1 (drop 105 lut))
      >> command_data x 0x04 (take 3 (drop 106 lut))
      >> command_data x 0x2C (take 1 (drop 109 lut))

  unfoldable pub refresh_mono_full : List ℕ → PanelIo x (Unit {0})
  unfolding ensure_known_face activate
  refresh_mono_full mono =
      ensure_known_face
      >> write_plane x 0x26 mono false
      >> write_plane x 0x24 mono false
      >> activate 0x00 (bit_or (bit_or 0x20 0x10) 0x04) 10000

  unfoldable pub refresh_mono_partial : List ℕ → ℕ → ℕ → ℕ → ℕ → PanelIo x (Unit {0})
  unfolding ensure_known_face activate
  refresh_mono_partial mono x0 y0 w h =
      ensure_known_face
      >> command_data x 0x3C (0x80 ∷ [])
      >> write_plane_rect x 0x24 mono x0 y0 w h false
      >> activate 0x00 0x3F 5000
      >> write_plane_rect x 0x26 mono x0 y0 w h false
      >> command_data x 0x3C (0x01 ∷ [])

  -- The waveforms of mode 1, for which the odd face exchanges the two planes.
  unfoldable pub refresh_absolute : List ℕ → List ℕ → List ℕ → PanelIo x (Unit {0})
  unfolding send_lut activate
  refresh_absolute lsb msb lut = do
    odd ← gets (λ s. s.face_odd)
    write_plane x 0x24 (if odd then msb else lsb) true
    write_plane x 0x26 (if odd then lsb else msb) true
    send_lut lut
    activate 0x00 (bit_or (bit_or 0x04 0x02) 0x01) 15000

  abbrev pub in_mode : GrayMode → List ℕ → List ℕ → PanelIo x (Unit {0})
  in_mode quality lsb msb = refresh_absolute lsb msb lut_quality
  in_mode text lsb msb = refresh_absolute lsb msb lut_text
  in_mode fast lsb msb =
      write_plane x 0x24 lsb true
      >> write_plane x 0x26 msb true
      >> send_lut lut_fast
      >> activate 0x00 (bit_or 0x08 0x04) 5000

  unfoldable pub refresh_gray4 : List ℕ → List ℕ → GrayMode → PanelIo x (Unit {0})
  unfolding ensure_known_face refresh_absolute
  refresh_gray4 lsb msb mode = ensure_known_face >> in_mode mode lsb msb

  -- `refresh_fastest`, for a window within the panel.
  unfoldable pub refresh_fastest :
      (new_msb old_lsb old_msb : List ℕ) → (x0 w y0 h : ℕ) → PanelIo x (Unit {0})
  unfolding ensure_known_face send_lut activate bw_row red_row
  refresh_fastest new_msb old_lsb old_msb x0 w y0 h =
      let (first, n) = byte_span x0 w in
      let bottom = min (y0 + h - 1) (ram_y_lines - 1) in
      ensure_known_face
      >> set_full_window x
      >> send_command x 0x24
      >> send_rows x (each_row (bw_row new_msb old_msb first n y0 bottom) ram_y_lines 0)
      >> set_full_window x
      >> send_command x 0x26
      >> send_rows x (each_row (red_row new_msb old_lsb old_msb first n y0 bottom) ram_y_lines 0)
      >> send_lut lut_fastest
      >> activate 0x00 (bit_or 0x08 0x04) 5000

  unfoldable pub display_gray4 : FrameBuffer → GrayMode → PanelIo x (Unit {0})
  unfolding refresh_gray4
  display_gray4 fb mode = refresh_gray4 fb.lsb fb.msb mode

  unfoldable pub display_mono : FrameBuffer → PanelIo x (Unit {0})
  unfolding refresh_mono_full
  display_mono fb = refresh_mono_full fb.msb
