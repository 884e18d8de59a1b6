-- ===== src/Base/Bytes.antt =====
-- Machine words as bytes: `to_le_bytes`, `from_le_bytes`, `to_be_bytes`, `from_be_bytes`.
use Prim.Native.Nat.{ℕ, zero, suc, ◌+◌, ◌*◌, ◌/◌, ◌%◌, ◌<◌}
use mathlib.Core.List.{List, [], ◌∷◌}
use native.Mathlib.Omega.{arith}
use package.paper_name_plate.Base.Lists.{All, get_or}

abbrev pub IsByte : ℕ → Type 0
IsByte b = b < 256

abbrev pub u16_le : ℕ → ℕ → ℕ
u16_le b0 b1 = b0 + b1 * 256

abbrev pub u32_le : ℕ → ℕ → ℕ → ℕ → ℕ
u32_le b0 b1 b2 b3 = b0 + b1 * 256 + b2 * 65536 + b3 * 16777216

abbrev pub u16_be : ℕ → ℕ → ℕ
u16_be b0 b1 = b0 * 256 + b1

abbrev pub u32_be : ℕ → ℕ → ℕ → ℕ → ℕ
u32_be b0 b1 b2 b3 = b0 * 16777216 + b1 * 65536 + b2 * 256 + b3

-- `(v as u16).to_le_bytes()` and its kin; the cast keeps the low bits.
abbrev pub u16_le_bytes : ℕ → List ℕ
u16_le_bytes v = v % 256 ∷ v / 256 % 256 ∷ []

abbrev pub u32_le_bytes : ℕ → List ℕ
u32_le_bytes v = v % 256 ∷ v / 256 % 256 ∷ v / 65536 % 256 ∷ v / 16777216 % 256 ∷ []

abbrev pub u16_be_bytes : ℕ → List ℕ
u16_be_bytes v = v / 256 % 256 ∷ v % 256 ∷ []

abbrev pub u32_be_bytes : ℕ → List ℕ
u32_be_bytes v = v / 16777216 % 256 ∷ v / 65536 % 256 ∷ v / 256 % 256 ∷ v % 256 ∷ []

pub get_or-IsByte : (bs : List ℕ) (i : ℕ) → All IsByte bs → get_or bs i 0 < 256
get_or-IsByte [] i h = omega arith
get_or-IsByte (b ∷ bs) zero h = h.0
get_or-IsByte (b ∷ bs) (suc i) h = get_or-IsByte bs i h.1
