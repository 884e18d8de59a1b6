-- ===== src/Board.antt =====
-- The power and reset lines of board.rs, which run through the port expander.
use paper_name_plate.Base.{ℕ, zero, suc, ◌*◌, List, [], ◌∷◌, Bool, true, false}
use paper_name_plate.Base.Results.{Result, ok, err}
use paper_name_plate.Base.Io.{Io, pure, ◌>>◌, update}
use paper_name_plate.Bus.{Bus}
use paper_name_plate.Bus.Registers.{BusIo, write_u8}
use paper_name_plate.Expander.{ioe1_addr, i2c_cfg, set_output, write_pin}
use paper_name_plate.Power.{pm1_addr, pm1_i2c_cfg}

-- The pins of the expander.
abbrev pub epd_en : ℕ
epd_en = 2

abbrev pub nfc_en : ℕ
nfc_en = 3

abbrev pub epd_rst : ℕ
epd_rst = 4

abbrev pub tp_rst : ℕ
tp_rst = 5

abbrev pub tp_en : ℕ
tp_en = 12

abbrev pub tf_en : ℕ
tf_en = 13

module _ (b : Bus) where
  open b use {State, BusError, wait}

  abbrev pub pause_ms : ℕ → BusIo b (Unit {0})
  pause_ms ms = update (wait (ms * 1000))

  -- Pulses of the resets of the panel and of the touch controller.
  unfoldable pub epd_hard_reset : BusIo b (Unit {0})
  epd_hard_reset =
      write_pin b epd_rst false
      >> write_pin b tp_rst false
      >> pause_ms 10
      >> write_pin b epd_rst true
      >> write_pin b tp_rst true
      >> pause_ms 10

  unfoldable pub set_outputs : List ℕ → BusIo b (Unit {0})
  set_outputs [] = pure tt
  set_outputs (p ∷ ps) = set_output b p >> set_outputs ps

  unfoldable pub epd_power_on : BusIo b (Unit {0})
  unfolding set_outputs epd_hard_reset
  epd_power_on =
      set_outputs (epd_en ∷ epd_rst ∷ tp_rst ∷ tp_en ∷ tf_en ∷ [])
      >> write_pin b epd_en true
      >> write_pin b tp_en true
      >> write_pin b tf_en false
      >> pause_ms 2
      >> epd_hard_reset

  unfoldable pub nfc_power : Bool → BusIo b (Unit {0})
  nfc_power on = set_output b nfc_en >> write_pin b nfc_en on

  unfoldable pub touch_reset : BusIo b (Unit {0})
  touch_reset =
      set_output b tp_rst
      >> write_pin b tp_rst false
      >> pause_ms 10
      >> write_pin b tp_rst true
      >> pause_ms 300

  -- A speed of the bus, in kHz, is set by `apply_config`, which esp-hal brings. An error of the first
  -- setting ends the call; the others are ignored.
  module _ (apply_config : ℕ → Io State BusError (Unit {0})) where
    abbrev slow_down : State → State
    slow_down s =
        let s1 = (write_u8 b pm1_addr pm1_i2c_cfg 0x00 s).0 in
        let s2 = (write_u8 b ioe1_addr i2c_cfg 0x00 s1).0 in
        (apply_config 100 (wait (10 * 1000) s2)).0

    abbrev if_fast : State × Result BusError (Unit {0}) → State
    if_fast (s, ok u) = wait (10 * 1000) (slow_down s)
    if_fast (s, err e) = s

    unfoldable pub recover_i2c_speed : State → State
    recover_i2c_speed s = if_fast (apply_config 400 s)

-- `n` attempts at a call, with a pause behind each that fails: whether one succeeded, as `init` of
-- the board does with the power lines.
unfoldable pub attempts : (b : Bus) → ℕ → BusIo b (Unit {0}) → b.State → b.State × Bool
attempts b zero m s = (s, false)
attempts b (suc n) m s =
    let again = λ (t : b.State). attempts b n m (b.wait (20 * 1000) t) in
    let r = m s in elim r.1 [ ok u ↦ (r.0, true) | err e ↦ again r.0 ]
