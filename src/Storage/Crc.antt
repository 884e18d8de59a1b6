-- ===== src/Storage/Crc.antt =====
-- `crc16` of config_store.rs: CCITT-FALSE.
use paper_name_plate.Base.{ℕ, zero, suc, ◌*◌, ◌%◌, List, [], ◌∷◌, bit_and, bit_xor, ◌==◌}
use paper_name_plate.Base.{if◌then◌else◌, ◌≡◌, refl}

-- `crc = if crc & 0x8000 != 0 { (crc << 1) ^ 0x1021 } else { crc << 1 }` on a `u16`
abbrev crc16_round : ℕ → ℕ
crc16_round crc =
    if bit_and crc 0x8000 == 0 then crc * 2 % 65536 else bit_xor (crc * 2 % 65536) 0x1021

abbrev crc16_rounds : ℕ → ℕ → ℕ
crc16_rounds zero crc = crc
crc16_rounds (suc n) crc = crc16_rounds n (crc16_round crc)

unfoldable pub crc16_byte : ℕ → ℕ → ℕ
crc16_byte crc b = crc16_rounds 8 (bit_xor crc (b * 256))

unfoldable pub crc16_from : ℕ → List ℕ → ℕ
crc16_from crc [] = crc
crc16_from crc (b ∷ bs) = crc16_from (crc16_byte crc b) bs

-- `crc16(data)`
abbrev pub crc16 : List ℕ → ℕ
crc16 bs = crc16_from 0xFFFF bs

crc16_check : crc16 (b'1' ∷ b'2' ∷ b'3' ∷ b'4' ∷ b'5' ∷ b'6' ∷ b'7' ∷ b'8' ∷ b'9' ∷ []) ≡ 0x29B1
unfolding crc16_from crc16_byte
crc16_check = refl
