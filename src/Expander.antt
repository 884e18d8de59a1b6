-- ===== src/Expander.antt =====
-- ioe1.rs: the port expander, on the bus.
pub mod Pins
use paper_name_plate.Base.{
  ℕ, zero, suc, ◌+◌, ◌-◌, ◌*◌, ◌/◌, ◌%◌, ◌^◌, List, [], ◌∷◌, Bool, true, false, not,
}
use paper_name_plate.Base.{Option, none, some, bit_and, bit_or, ltb, ◌==◌, if◌then◌else◌}
use paper_name_plate.Base.Bytes.{u16_le_bytes}
use paper_name_plate.Base.Results.{Result, ok, err}
use paper_name_plate.Base.Io.{Io, pure, fail, continue, ◌>>=◌, ◌>>◌, update, lift}
use paper_name_plate.Bus.{Bus}
use paper_name_plate.Bus.Registers.{
  BusIo, read_u8, read_u16_le, write_u8, write_all, update_u8, set_bits, clear_bits,
}

abbrev pub ioe1_addr : ℕ
ioe1_addr = 0x4F

abbrev pub uid_l : ℕ
uid_l = 0x00

abbrev pub rev_reg : ℕ
rev_reg = 0x02

abbrev pub gpio_mode_l : ℕ
gpio_mode_l = 0x03

abbrev pub gpio_mode_h : ℕ
gpio_mode_h = 0x04

abbrev pub gpio_out_l : ℕ
gpio_out_l = 0x05

abbrev pub gpio_out_h : ℕ
gpio_out_h = 0x06

abbrev pub gpio_in_l : ℕ
gpio_in_l = 0x07

abbrev pub gpio_in_h : ℕ
gpio_in_h = 0x08

abbrev pub gpio_pu_l : ℕ
gpio_pu_l = 0x09

abbrev pub gpio_pu_h : ℕ
gpio_pu_h = 0x0A

abbrev pub gpio_drv_l : ℕ
gpio_drv_l = 0x13

abbrev pub gpio_drv_h : ℕ
gpio_drv_h = 0x14

abbrev pub pwm1_duty_l : ℕ
pwm1_duty_l = 0x1B

abbrev pub i2c_cfg : ℕ
i2c_cfg = 0x23

abbrev pub pwm_freq_l : ℕ
pwm_freq_l = 0x25

pub data ExpanderError (E : Type 0) : Type 0 where
  i2c : E → ExpanderError E
  not_found : ExpanderError E

-- `Pin::split`: the bank and the mask of a pin, 0 to 13.
unfoldable pub split_pin : ℕ → Bool × ℕ
split_pin i = if ltb i 8 then (false, 2 ^ i) else (true, 2 ^ (i - 8))

unfoldable pub bank : ℕ → ℕ → ℕ → ℕ × ℕ
unfolding split_pin
bank base_l base_h pin = let (hi, mask) = split_pin pin in (if hi then base_h else base_l, mask)

module _ (b : Bus) where
  open b use {State, BusError, wait}

  -- `delay.delay_ms`
  abbrev pub delay_ms : ℕ → State → State
  delay_ms ms s = wait (ms * 1000) s

  -- The probes of `init`: an error is waited out.
  unfoldable pub probe_uid : ℕ → State → State × Option ℕ
  probe_uid zero s = (s, none)
  probe_uid (suc n) s =
      let r = read_u16_le b ioe1_addr uid_l s in
      let again = λ (t : State). probe_uid n t in
      elim r.1 [ ok v ↦ (r.0, some v) | err e ↦ again (delay_ms 10 r.0) ]

  abbrev pub with_uid :
      State × Option ℕ
      → (ℕ → Io State (ExpanderError BusError) ℕ)
      → State × Result (ExpanderError BusError) ℕ
  with_uid (s, none) f = (s, err not_found)
  with_uid (s, some v) f = f v s

  unfoldable pub init : Io State (ExpanderError BusError) ℕ
  unfolding probe_uid
  init s =
      with_uid (probe_uid 20 s)
        (λ uid. do lift i2c (write_u8 b ioe1_addr i2c_cfg 0x00); update (delay_ms 5); pure uid)

  unfoldable pub set_i2c_400k : BusIo b (Unit {0})
  set_i2c_400k = do write_u8 b ioe1_addr i2c_cfg 0x10; update (delay_ms 5)

  unfoldable pub rev : BusIo b ℕ
  rev = read_u8 b ioe1_addr rev_reg

  unfoldable pub set_output : ℕ → BusIo b (Unit {0})
  set_output pin =
      let drv = bank gpio_drv_l gpio_drv_h pin in
      let mode = bank gpio_mode_l gpio_mode_h pin in
      clear_bits b ioe1_addr drv.0 drv.1 >> set_bits b ioe1_addr mode.0 mode.1

  unfoldable pub set_input : ℕ → Bool → BusIo b (Unit {0})
  set_input pin pull_up =
      let mode = bank gpio_mode_l gpio_mode_h pin in
      let pu = bank gpio_pu_l gpio_pu_h pin in
      clear_bits b ioe1_addr mode.0 mode.1
      >> update_u8 b ioe1_addr pu.0 pu.1 (if pull_up then pu.1 else 0)

  -- `write`
  unfoldable pub write_pin : ℕ → Bool → BusIo b (Unit {0})
  write_pin pin high =
      let out = bank gpio_out_l gpio_out_h pin in
      update_u8 b ioe1_addr out.0 out.1 (if high then out.1 else 0)

  unfoldable pub write_mask : Bool → ℕ → ℕ → BusIo b (Unit {0})
  write_mask high_bank mask value =
      update_u8 b ioe1_addr (if high_bank then gpio_out_h else gpio_out_l) mask value

  -- `read`
  unfoldable pub read_pin : ℕ → BusIo b Bool
  read_pin pin =
      let inr = bank gpio_in_l gpio_in_h pin in
      do v ← read_u8 b ioe1_addr inr.0; pure (not (bit_and v inr.1 == 0))

  unfoldable pub set_pwm_frequency : ℕ → BusIo b (Unit {0})
  set_pwm_frequency hz = write_all b ioe1_addr pwm_freq_l (u16_le_bytes hz)

  unfoldable pub set_pwm_duty : ℕ → ℕ → Bool → BusIo b (Unit {0})
  set_pwm_duty ch duty12 enable =
      let lo = bit_and duty12 0xFF in
      let hi = bit_or (bit_and (duty12 / 2 ^ 8 % 256) 0x0F) (if enable then 0x80 else 0) in
      write_all b ioe1_addr ((pwm1_duty_l + ch * 2) % 256) (lo ∷ hi ∷ [])
