-- ===== src/Ble/Crc.antt =====
-- `crc32` of app/ble.rs: the reflected IEEE CRC-32.
use paper_name_plate.Base.{ℕ, zero, suc, ◌/◌, ◌^◌, List, [], ◌∷◌, bit_and, bit_xor, ◌==◌}
use paper_name_plate.Base.{if◌then◌else◌, ◌≡◌, refl, ◌<◌, All, arith}
use paper_name_plate.Base.Bits.{bit_xor-lt}
use paper_name_plate.Base.Bytes.{IsByte}

-- `crc = if crc & 1 != 0 { (crc >> 1) ^ 0xEDB8_8320 } else { crc >> 1 }`
abbrev crc32_round : ℕ → ℕ
crc32_round crc = if bit_and crc 1 == 0 then crc / 2 else bit_xor (crc / 2) 0xEDB8_8320

abbrev crc32_rounds : ℕ → ℕ → ℕ
crc32_rounds zero crc = crc
crc32_rounds (suc n) crc = crc32_rounds n (crc32_round crc)

abbrev crc32_from : ℕ → List ℕ → ℕ
crc32_from crc [] = crc
crc32_from crc (b ∷ bs) = crc32_from (crc32_rounds 8 (bit_xor crc b)) bs

-- `!crc` of a 32-bit word is its exclusive or with all ones.
unfoldable pub crc32 : List ℕ → ℕ
crc32 bs = bit_xor (crc32_from 0xFFFF_FFFF bs) 0xFFFF_FFFF

crc32_check :
    crc32 (b'1' ∷ b'2' ∷ b'3' ∷ b'4' ∷ b'5' ∷ b'6' ∷ b'7' ∷ b'8' ∷ b'9' ∷ []) ≡ 0xCBF4_3926
unfolding crc32
crc32_check = refl

crc32_rounds-lt : (n crc : ℕ) → crc < 2 ^ 32 → crc32_rounds n crc < 2 ^ 32
crc32_rounds-lt zero crc h = h
crc32_rounds-lt (suc n) crc h =
    crc32_rounds-lt n (crc32_round crc)
      (ground (arith, bit_xor-lt 32 (crc / 2) 0xEDB8_8320 (omega arith) (omega arith)))

crc32_from-lt : (bs : List ℕ) (crc : ℕ) → crc < 2 ^ 32 → All IsByte bs → crc32_from crc bs < 2 ^ 32
crc32_from-lt [] crc h b = h
crc32_from-lt (x ∷ bs) crc h b =
    crc32_from-lt bs (crc32_rounds 8 (bit_xor crc x))
      (crc32_rounds-lt 8 (bit_xor crc x) (bit_xor-lt 32 crc x h (omega arith))) b.1

-- The checksum of bytes is a 32-bit word.
pub crc32-lt : (bs : List ℕ) → All IsByte bs → crc32 bs < 2 ^ 32
unfolding crc32
crc32-lt bs b =
    bit_xor-lt 32 _ 0xFFFF_FFFF (crc32_from-lt bs 0xFFFF_FFFF (omega arith) b) (omega arith)
