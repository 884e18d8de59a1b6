-- ===== src/Bus.antt =====
-- The I2C bus of embedded-hal, which the drivers of the chips share, and i2c_reg.rs on it.
pub mod Registers
pub mod Device
use paper_name_plate.Base.{
  ℕ, ◌+◌, ◌-◌, ◌≡◌, List, [], ◌∷◌, ◌++◌, bit_and, bit_or, not, length, get_or, ◌==◌, if◌then◌else◌,
}
use paper_name_plate.Base.Bytes.{u16_le}
use paper_name_plate.Base.Results.{Result, ok, err}
use paper_name_plate.Base.Io.{Io, pure, ◌>>=◌}

-- A bus with what is on it. `write` sends bytes to an address (two writes of one transaction are one
-- transfer, as embedded-hal has it), `write_read` sends bytes and fills a buffer of `n` bytes, and
-- `wait` lets microseconds pass. As documented, a buffer that was filled is filled to its end.
pub record Bus : Type 1 where
  pub State : Type 0
  pub BusError : Type 0
  pub write : (addr : ℕ) → List ℕ → Io State BusError (Unit {0})
  pub write_read : (addr : ℕ) → List ℕ → (n : ℕ) → Io State BusError (List ℕ)
  pub wait : (us : ℕ) → State → State
  pub write_read_fills :
      (addr : ℕ) (tx : List ℕ) (n : ℕ) (s : State) (bs : List ℕ)
      → (write_read addr tx n s).1 ≡ ok bs
      → length bs ≡ n

-- `!mask` on a byte
abbrev pub not_u8 : ℕ → ℕ
not_u8 mask = 255 - mask
