-- ===== src/Bus/Registers.antt =====
-- i2c_reg.rs: registers of a chip, by the chip's address.
use paper_name_plate.Base.{ℕ, List, [], ◌∷◌, bit_and, bit_or, get_or, ◌==◌, if◌then◌else◌}
use paper_name_plate.Base.Bytes.{u16_le}
use paper_name_plate.Base.Io.{Io, pure, ◌>>=◌}
use paper_name_plate.Bus.{Bus, not_u8}

module _ (b : Bus) where
  open b use {State, BusError, write, write_read}

  abbrev pub BusIo : Type 0 → Type 0
  BusIo A = Io State BusError A

  unfoldable pub read : ℕ → ℕ → ℕ → BusIo (List ℕ)
  read addr reg n = write_read addr (reg ∷ []) n

  unfoldable pub read_u8 : ℕ → ℕ → BusIo ℕ
  read_u8 addr reg = do bs ← read addr reg 1; pure (get_or bs 0 0)

  unfoldable pub read_u16_le : ℕ → ℕ → BusIo ℕ
  read_u16_le addr reg = do bs ← read addr reg 2; pure (u16_le (get_or bs 0 0) (get_or bs 1 0))

  -- `write`
  unfoldable pub write_all : ℕ → ℕ → List ℕ → BusIo (Unit {0})
  write_all addr reg bytes = write addr (reg ∷ bytes)

  unfoldable pub write_u8 : ℕ → ℕ → ℕ → BusIo (Unit {0})
  write_u8 addr reg value = write addr (reg ∷ value ∷ [])

  -- `(cur & !mask) | (value & mask)`
  abbrev pub merged : ℕ → ℕ → ℕ → ℕ
  merged cur mask value = bit_or (bit_and cur (not_u8 mask)) (bit_and value mask)

  -- Nothing is written if nothing changes.
  unfoldable pub update_u8 : ℕ → ℕ → ℕ → ℕ → BusIo (Unit {0})
  update_u8 addr reg mask value = do
    cur ← read_u8 addr reg
    if merged cur mask value == cur then pure tt else write_u8 addr reg (merged cur mask value)

  unfoldable pub set_bits : ℕ → ℕ → ℕ → BusIo (Unit {0})
  set_bits addr reg mask = update_u8 addr reg mask mask

  unfoldable pub clear_bits : ℕ → ℕ → ℕ → BusIo (Unit {0})
  clear_bits addr reg mask = update_u8 addr reg mask 0
