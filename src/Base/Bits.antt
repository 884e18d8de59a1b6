-- ===== src/Base/Bits.antt =====
-- Masks on bytes as arithmetic. Over a byte every value is checked by evaluation.
use Prim.Native.Nat.{ℕ, zero, suc, ◌/◌, ◌%◌, ◌^◌, ◌≤◌, ◌<◌, max, bit_and, bit_or, bit_xor}
use Prim.Native.Nat.{digits, differ, bit_or-bitwise, bit_xor-bitwise}
use native.Mathlib.Nat.{pow-suc}
use mathlib.Core.Path.{◌≡◌, refl}
use mathlib.Core.Bool.{Bool, true, false}
use native.Mathlib.Omega.{arith}
use package.paper_name_plate.Base.Tests.{◌==◌, ==_iff, if◌then◌else◌}

-- Does the test hold of every number before the bound?
unfoldable pub holds_to : ℕ → (ℕ → Bool) → Bool
holds_to (suc last) test = if test last then holds_to last test else false
holds_to zero test = true

pub holds_to-at :
    (bound : ℕ) (test : ℕ → Bool) (i : ℕ) → holds_to bound test ≡ true → i < bound → test i ≡ true
unfolding holds_to
holds_to-at (suc last) test i all inside = ground (arith, holds_to-at last test i)
holds_to-at zero test i all inside = absurd (omega arith)

low_nibble_table : holds_to 256 (λ b. bit_and b 0x0f == b % 16) ≡ true
unfolding holds_to
low_nibble_table = refl

pub low_nibble : (b : ℕ) → b < 256 → bit_and b 0x0f ≡ b % 16
low_nibble b h = (==_iff _ _).0 (holds_to-at 256 _ b low_nibble_table h)

-- An operation on digits, where the rest of the second number is kept, does not widen its operands.
module _ (f : ℕ → ℕ → ℕ) (digit : (x y : ℕ) → x ≤ 1 → y ≤ 1 → f x y ≤ 1) where
  digits-lt : (k n a b : ℕ) → a < 2 ^ k → b < 2 ^ k → digits (λ y. y) f n a b < 2 ^ k
  digits-lt k zero a b p q = q
  digits-lt k (suc n) zero b p q = q
  digits-lt zero (suc n) (suc a) b p q = absurd (omega arith)
  digits-lt (suc k) (suc n) (suc a) b p q = omega (
    arith,
    pow-suc 2 k,
    digits-lt k n (suc a / 2) (b / 2) (omega (arith, pow-suc 2 k)) (omega (arith, pow-suc 2 k)),
    digit (suc a % 2) (b % 2) (omega arith) (omega arith),
  )

differ-le-one : (x y : ℕ) → x ≤ 1 → y ≤ 1 → differ x y ≤ 1
differ-le-one zero y p q = q
differ-le-one (suc x) zero p q = p
differ-le-one (suc x) (suc zero) p q = ground arith
differ-le-one (suc x) (suc (suc y)) p q = absurd (omega arith)

pub bit_xor-lt : (k a b : ℕ) → a < 2 ^ k → b < 2 ^ k → bit_xor a b < 2 ^ k
bit_xor-lt k a b p q = rw bit_xor-bitwise (digits-lt differ differ-le-one k a a b p q)

pub bit_or-lt : (k a b : ℕ) → a < 2 ^ k → b < 2 ^ k → bit_or a b < 2 ^ k
bit_or-lt k a b p q = rw bit_or-bitwise (digits-lt max (λ x y h g. omega arith) k a a b p q)

digits-max-zero : (n a : ℕ) → a ≤ n → digits (λ y. y) max n a 0 ≡ a
digits-max-zero zero zero h = refl
digits-max-zero zero (suc a) h = absurd (omega arith)
digits-max-zero (suc n) zero h = refl
digits-max-zero (suc n) (suc a) h = omega (arith, digits-max-zero n (suc a / 2) (omega arith))

pub bit_or-zero : (a : ℕ) → bit_or a 0 ≡ a
bit_or-zero a = rw bit_or-bitwise (digits-max-zero a a (omega arith))
