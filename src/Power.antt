-- ===== src/Power.antt =====
-- pm1.rs: the power controller, on the bus.
pub mod Frontlight
use paper_name_plate.Base.{
  ℕ, zero, suc, ◌+◌, ◌*◌, ◌/◌, ◌%◌, ◌^◌, List, [], ◌∷◌, Bool, true, false, not,
}
use paper_name_plate.Base.{bit_and, bit_or, ◌==◌, if◌then◌else◌}
use paper_name_plate.Base.Bytes.{u16_le_bytes}
use paper_name_plate.Base.Results.{Result, ok, err}
use paper_name_plate.Base.Io.{Io, pure, continue, ◌>>=◌, ◌>>◌, update, lift}
use paper_name_plate.Bus.{Bus}
use paper_name_plate.Bus.Registers.{
  BusIo, read, read_u8, read_u16_le, write_u8, write_all, update_u8, set_bits, clear_bits,
}

abbrev pub pm1_addr : ℕ
pm1_addr = 0x6E

abbrev pub device_id : ℕ
device_id = 0x2050

abbrev pub device_id_reg : ℕ
device_id_reg = 0x00

abbrev pub hw_rev_reg : ℕ
hw_rev_reg = 0x02

abbrev pub sw_rev_reg : ℕ
sw_rev_reg = 0x03

abbrev pub pwr_src : ℕ
pwr_src = 0x04

abbrev pub pwr_cfg : ℕ
pwr_cfg = 0x06

abbrev pub pm1_i2c_cfg : ℕ
pm1_i2c_cfg = 0x09

abbrev pub wdt_cnt : ℕ
wdt_cnt = 0x0A

abbrev pub sys_cmd : ℕ
sys_cmd = 0x0C

abbrev pub gpio_drv : ℕ
gpio_drv = 0x13

abbrev pub gpio_func0 : ℕ
gpio_func0 = 0x16

abbrev pub vbat_l : ℕ
vbat_l = 0x22

abbrev pub vin_l : ℕ
vin_l = 0x24

abbrev pub pwm0_l : ℕ
pwm0_l = 0x30

abbrev pub pm1_pwm_freq_l : ℕ
pm1_pwm_freq_l = 0x34

abbrev pub chg_en : ℕ
chg_en = 1

abbrev pub dcdc_en : ℕ
dcdc_en = 2

abbrev pub ldo_en : ℕ
ldo_en = 4

abbrev pub led_en_level : ℕ
led_en_level = 16

pub data PowerError (E : Type 0) : Type 0 where
  i2c : E → PowerError E
  not_found : PowerError E

-- The two bytes of the PWM register, for a brightness of 0 to 255.
unfoldable pub frontlight_bytes : ℕ → List ℕ
frontlight_bytes brightness =
    let duty12 = brightness * brightness / 2 ^ 4 in
    if brightness == 0
    then 0x00 ∷ 0x00 ∷ []
    else bit_and duty12 0xFF ∷ bit_or (bit_and (duty12 / 2 ^ 8 % 256) 0x0F) 0x10 ∷ []

module _ (b : Bus) where
  open b use {State, BusError, wait}

  abbrev pub pause_ms : ℕ → State → State
  pause_ms ms s = wait (ms * 1000) s

  -- Errors are ignored.
  unfoldable pub wake : State → State
  wake s = (read b pm1_addr hw_rev_reg 1 s).0

  -- The probes of `init`: a wrong identity and an error are waited out.
  unfoldable pub probe_id : ℕ → State → State × Bool
  probe_id zero s = (s, false)
  probe_id (suc n) s =
      let r = read_u16_le b pm1_addr device_id_reg s in
      let again = λ (t : State). probe_id n t in
      elim r.1 [
        | ok v ↦ if v == device_id then (r.0, true) else again (pause_ms 5 r.0)
        | err e ↦ again (pause_ms 10 (wake r.0))
      ]

  -- What follows the probes: sleep and watchdog off, the power rails on.
  unfoldable pub power_up : BusIo b (Unit {0})
  power_up =
      write_u8 b pm1_addr pm1_i2c_cfg 0x00
      >> update (pause_ms 5)
      >> write_u8 b pm1_addr pm1_i2c_cfg 0x00
      >> update (pause_ms 5)
      >> write_u8 b pm1_addr wdt_cnt 0x00
      >> set_bits b pm1_addr pwr_cfg (bit_or (bit_or (bit_or chg_en dcdc_en) ldo_en) led_en_level)

  abbrev pub if_found :
      State × Bool
      → Io State (PowerError BusError) (Unit {0})
      → State × Result (PowerError BusError) (Unit {0})
  if_found (s, true) m = m s
  if_found (s, false) m = (s, err not_found)

  -- `init`
  unfoldable pub init_power : Io State (PowerError BusError) (Unit {0})
  unfolding probe_id power_up
  init_power s = if_found (probe_id 20 s) (lift i2c power_up)

  unfoldable pub set_power_400k : BusIo b (Unit {0})
  set_power_400k = write_u8 b pm1_addr pm1_i2c_cfg 0x10 >> update (pause_ms 5)

  unfoldable pub hw_rev : BusIo b ℕ
  hw_rev = read_u8 b pm1_addr hw_rev_reg

  unfoldable pub sw_rev : BusIo b ℕ
  sw_rev = read_u8 b pm1_addr sw_rev_reg

  unfoldable pub power_source : BusIo b ℕ
  power_source = do v ← read_u8 b pm1_addr pwr_src; pure (bit_and v 0x07)

  unfoldable pub battery_mv : BusIo b ℕ
  battery_mv = read_u16_le b pm1_addr vbat_l

  unfoldable pub vin_mv : BusIo b ℕ
  vin_mv = read_u16_le b pm1_addr vin_l

  unfoldable pub set_frontlight : ℕ → BusIo b (Unit {0})
  set_frontlight brightness = write_all b pm1_addr pwm0_l (frontlight_bytes brightness)

  unfoldable pub init_frontlight : ℕ → BusIo b (Unit {0})
  init_frontlight freq_hz =
      clear_bits b pm1_addr gpio_drv (2 ^ 3)
      >> set_bits b pm1_addr gpio_func0 0xC0
      >> write_all b pm1_addr pm1_pwm_freq_l (u16_le_bytes freq_hz)
      >> set_frontlight 0

  unfoldable pub set_led_en : Bool → BusIo b (Unit {0})
  set_led_en on = update_u8 b pm1_addr pwr_cfg led_en_level (if on then led_en_level else 0)

  unfoldable pub shutdown : BusIo b (Unit {0})
  shutdown = write_u8 b pm1_addr sys_cmd (bit_or 0xA0 0x01)
