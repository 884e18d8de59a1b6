-- ===== src/Base/Int.antt =====
-- The integers that signed parameters take, over the native numbers.
use Prim.Native.Nat.{ℕ, suc, ◌+◌, ◌-◌, ◌*◌, ◌≤◌}
use mathlib.Core.Path.{◌≡◌}
use native.Mathlib.Omega.{arith}
use package.paper_name_plate.Base.Tests.{leb, if◌then◌else◌}

pub data ℤ : Type 0 where
  -- `negsuc n` is -1 - n.
  pos negsuc : ℕ → ℤ

-- a - b, as an integer.
abbrev pub sub_ℕ : ℕ → ℕ → ℤ
sub_ℕ a b = if leb b a then pos (a - b) else negsuc (b - a - 1)

-- z + n
abbrev pub add_ℕ : ℤ → ℕ → ℤ
add_ℕ (pos a) n = pos (a + n)
add_ℕ (negsuc a) n = sub_ℕ n (suc a)

-- 2 * z
abbrev pub double : ℤ → ℤ
double (pos a) = pos (a * 2)
double (negsuc a) = negsuc (a * 2 + 1)

-- A difference that is no negative number.
pub sub_ℕ-pos : (a b : ℕ) → b ≤ a → sub_ℕ a b ≡ pos (a - b)
sub_ℕ-pos a b h = ground arith
