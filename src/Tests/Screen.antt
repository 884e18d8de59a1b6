-- ===== src/Tests/Screen.antt =====
-- A panel that is never busy, on a wire that never fails, and a refresh of a region.
use paper_name_plate.Base.{ℕ, List, [], true, false, replicate}
use paper_name_plate.Base.Results.{Result, ok}
use paper_name_plate.Panel.FrameBuffer.{FrameBuffer}
use paper_name_plate.Panel.Driver.{Wire, Screen, PanelError}
use paper_name_plate.Panel.Driver.Refresh.{refresh_fastest}
use paper_name_plate.Panel.Driver.Chip.{Memory, controller, screen}

abbrev pub quiet : Wire
quiet = record {
  State = Unit {0};
  SpiError = Unit {0};
  PinError = Unit {0};
  spi_write = λ bytes s. (s, ok tt);
  spi_flush = λ s. (s, ok tt);
  set_dc = λ high s. (s, ok tt);
  set_cs = λ high s. (s, ok tt);
  busy_is_high = λ s. (s, ok false);
  wait = λ us s. s;
}

-- A plane of one byte.
abbrev plane_of : ℕ → List ℕ
plane_of v = replicate 48000 v

abbrev dark : FrameBuffer
dark = record {
  lsb = plane_of 0;
  msb = plane_of 0;
  orientation = record { flip_x = false; flip_y = false };
}

abbrev start : Memory
start = record { data_mode = false; command = 0; bw = []; red = []; odd = false; sequence = 0 }

-- A region of nine columns and three rows becomes white.
abbrev lit : Screen controller × Result (PanelError (Unit {0}) (Unit {0})) (Unit {0})
lit =
    refresh_fastest controller (plane_of 0xFF) (plane_of 0) (plane_of 0) 13 9 2 3
      (screen start true false)
