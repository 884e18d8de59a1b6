-- ===== src/Panel/Driver/Chip.antt =====
-- The controller of the panel, at the end of the wire of ssd1677/mod.rs.
use paper_name_plate.Base.{ℕ, List, [], ◌∷◌, ◌++◌}
use paper_name_plate.Base.{Bool, true, false, not, bit_and, ◌==◌, if◌then◌else◌, get_or}
use paper_name_plate.Base.Results.{ok}
use paper_name_plate.Panel.Driver.{Wire, Screen}

-- The controller, as far as a refresh of the whole memory asks for it: the level of D/C, the command
-- whose data follow, the two planes, from the command that begins to write one on, the face that the
-- next image takes, and the byte of the update sequence.
pub record Memory : Type 0 where
  pub data_mode : Bool
  pub command : ℕ
  pub bw : List ℕ
  pub red : List ℕ
  pub odd : Bool
  pub sequence : ℕ

-- A command: 0x24 and 0x26 begin a plane, 0x12 resets, and 0x20 runs the sequence, of which mode 2
-- turns the face and mode 1 makes it even.
abbrev pub obey : ℕ → Memory → Memory
obey c m =
    if c == 0x24
    then record m { command = c; bw = [] }
    else if c == 0x26
    then record m { command = c; red = [] }
    else if c == 0x12
    then record m { command = c; odd = false }
    else if c == 0x20
    then record m { command = c; odd = if bit_and m.sequence 0x08 == 0 then false else not m.odd }
    else record m { command = c }

-- The data of a command.
abbrev pub feed : List ℕ → Memory → Memory
feed bytes m =
    if m.command == 0x24
    then record m { bw = m.bw ++ bytes }
    else if m.command == 0x26
    then record m { red = m.red ++ bytes }
    else if m.command == 0x22
    then record m { sequence = get_or bytes 0 0 }
    else m

-- A wire that never fails, with the controller at its end, which is never busy.
abbrev pub controller : Wire
controller = record {
  State = Memory;
  SpiError = Unit {0};
  PinError = Unit {0};
  spi_write = λ bytes m. (if m.data_mode then feed bytes m else obey (get_or bytes 0 0) m, ok tt);
  spi_flush = λ m. (m, ok tt);
  set_dc = λ high m. (record m { data_mode = high }, ok tt);
  set_cs = λ high m. (m, ok tt);
  busy_is_high = λ m. (m, ok false);
  wait = λ us m. m;
}

abbrev pub joined : List (List ℕ) → List ℕ
joined [] = []
joined (r ∷ rows) = r ++ joined rows

-- The driver, which knows the face, on a controller.
abbrev pub screen : Memory → (on odd : Bool) → Screen controller
screen m on odd = record { wire = m; screen_on = on; face_odd = odd; face_known = true }
