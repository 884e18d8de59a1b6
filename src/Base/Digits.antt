-- ===== src/Base/Digits.antt =====
-- The binary digits of the words that the chips' registers and flags are.
use Prim.Native.Nat.{
  ℕ, zero, suc, ◌+◌, ◌-◌, ◌*◌, ◌/◌, ◌%◌, ◌^◌, ◌≤◌, ◌<◌, min, max, bit_and, bit_or, digits,
  bit_and-bitwise, bit_or-bitwise,
}
use native.Mathlib.Nat.{pow-suc}
use mathlib.Core.Path.{◌≡◌, refl, sym, ap, ◌∙◌}
use native.Mathlib.Omega.{arith}

-- Digit `i` of a number, from the lowest.
abbrev pub bit_at : ℕ → ℕ → ℕ
bit_at zero a = a % 2
bit_at (suc i) a = bit_at i (a / 2)

pub bit_at-zero : (i : ℕ) → bit_at i 0 ≡ 0
bit_at-zero zero = refl
bit_at-zero (suc i) = bit_at-zero i

pub bit_at-le_one : (i a : ℕ) → bit_at i a ≤ 1
bit_at-le_one zero a = omega arith
bit_at-le_one (suc i) a = bit_at-le_one i (a / 2)

-- An operation on digits, and what it makes of the second number once the first has run out.
module _ (z : ℕ → ℕ) (f : ℕ → ℕ → ℕ) (small : (x y : ℕ) → x ≤ 1 → y ≤ 1 → f x y ≤ 1)
    (base : (i b : ℕ) → bit_at i (z b) ≡ f 0 (bit_at i b)) where
  bit_at-digits : (n a b i : ℕ) → a ≤ n → bit_at i (digits z f n a b) ≡ f (bit_at i a) (bit_at i b)
  bit_at-digits zero zero b i h = base i b ∙ ap (λ d. f d (bit_at i b)) (sym (bit_at-zero i))
  bit_at-digits zero (suc a) b i h = absurd (omega arith)
  bit_at-digits (suc n) zero b i h = base i b ∙ ap (λ d. f d (bit_at i b)) (sym (bit_at-zero i))
  bit_at-digits (suc n) (suc a) b zero h =
      let s = small (suc a % 2) (b % 2) (omega arith) (omega arith) in omega arith
  bit_at-digits (suc n) (suc a) b (suc i) h =
      let s = small (suc a % 2) (b % 2) (omega arith) (omega arith) in
      let d = digits z f n (suc a / 2) (b / 2) in
      let e : (d * 2 + f (suc a % 2) (b % 2)) / 2 ≡ d = omega arith in
      ap (bit_at i) e ∙ bit_at-digits n (suc a / 2) (b / 2) i (omega arith)

pub bit_at-and : (i a b : ℕ) → bit_at i (bit_and a b) ≡ min (bit_at i a) (bit_at i b)
bit_at-and i a b =
    ap (bit_at i) (bit_and-bitwise a b)
    ∙ bit_at-digits (λ y. zero) min (λ x y p q. omega arith) (λ i b. omega (arith, bit_at-zero i)) a
        a b i (omega arith)

pub bit_at-or : (i a b : ℕ) → bit_at i (bit_or a b) ≡ max (bit_at i a) (bit_at i b)
bit_at-or i a b =
    ap (bit_at i) (bit_or-bitwise a b)
    ∙ bit_at-digits (λ y. y) max (λ x y p q. omega arith) (λ i b. omega arith) a a b i (omega arith)

-- `!a` on `k` bits
pub bit_at-not : (k i a : ℕ) → a < 2 ^ k → i < k → bit_at i (2 ^ k - 1 - a) ≡ 1 - bit_at i a
bit_at-not zero i a h l = absurd (omega arith)
bit_at-not (suc k) zero a h l = omega (arith, pow-suc 2 k)
bit_at-not (suc k) (suc i) a h l =
    let e : (2 ^ suc k - 1 - a) / 2 ≡ 2 ^ k - 1 - a / 2 = omega (arith, pow-suc 2 k) in
    ap (bit_at i) e ∙ bit_at-not k i (a / 2) (omega (arith, pow-suc 2 k)) (omega arith)

-- Words that agree in their digits are equal.
pub bits_eq :
    (k a b : ℕ) → a < 2 ^ k → b < 2 ^ k → ((i : ℕ) → i < k → bit_at i a ≡ bit_at i b) → a ≡ b
bits_eq zero a b p q h = omega arith
bits_eq (suc k) a b p q h =
    let e =
      bits_eq k (a / 2) (b / 2) (omega (arith, pow-suc 2 k)) (omega (arith, pow-suc 2 k))
        (λ i l. h (suc i) (omega arith)) in
    omega (arith, h 0 (omega arith))

digits-le : (n a b : ℕ) → digits (λ y. zero) min n a b ≤ a
digits-le zero a b = omega arith
digits-le (suc n) zero b = omega arith
digits-le (suc n) (suc a) b = omega (arith, digits-le n (suc a / 2) (b / 2))

pub bit_and-le : (a b : ℕ) → bit_and a b ≤ a
bit_and-le a b = rw bit_and-bitwise (digits-le a a b)

digits-le_right : (n a b : ℕ) → digits (λ y. zero) min n a b ≤ b
digits-le_right zero a b = omega arith
digits-le_right (suc n) zero b = omega arith
digits-le_right (suc n) (suc a) b = omega (arith, digits-le_right n (suc a / 2) (b / 2))

pub bit_and-le_right : (a b : ℕ) → bit_and a b ≤ b
bit_and-le_right a b = rw bit_and-bitwise (digits-le_right a a b)
