-- ===== src/Prelude/Bits.antt =====
-- Masks and shifts as arithmetic, at every width. Both operations are recursions on binary digits.
use Prim.Native.Nat.{ℕ, zero, suc, ◌+◌, ◌-◌, ◌*◌, ◌/◌, ◌%◌, ◌^◌, ◌≤◌, ◌<◌, min, max}
use Prim.Native.Nat.{bit_and, bit_or, digits, bit_and-bitwise, bit_or-bitwise}
use mathlib.Core.Path.{◌≡◌, refl, ap}
use native.Mathlib.Nat.{pow-suc, one-le-pow, div-div-eq-div-mul}
use native.Mathlib.Omega.{arith}

module _ (z : ℕ → ℕ) (f : ℕ → ℕ → ℕ) where
  -- The fuel of `digits` does not matter once it reaches the first number.
  digits_enough : (n m a b : ℕ) → a ≤ n → a ≤ m → digits z f n a b ≡ digits z f m a b
  digits_enough zero zero a b p q = refl
  digits_enough zero (suc m) zero b p q = refl
  digits_enough zero (suc m) (suc a) b p q = absurd (omega arith)
  digits_enough (suc n) zero zero b p q = refl
  digits_enough (suc n) zero (suc a) b p q = absurd (omega arith)
  digits_enough (suc n) (suc m) zero b p q = refl
  digits_enough (suc n) (suc m) (suc a) b p q =
      rw (digits_enough n m (suc a / 2) (b / 2) (omega arith) (omega arith))

pub bit_and_step : (a b : ℕ) → bit_and a b ≡ bit_and (a / 2) (b / 2) * 2 + min (a % 2) (b % 2)
bit_and_step zero b = omega (arith, bit_and-bitwise 0 b, bit_and-bitwise 0 (b / 2))
bit_and_step (suc a) b = omega (
  arith,
  bit_and-bitwise (suc a) b,
  bit_and-bitwise (suc a / 2) (b / 2),
  digits_enough (λ y. 0) min a (suc a / 2) (suc a / 2) (b / 2) (omega arith) (omega arith),
)

pub bit_or_step : (a b : ℕ) → bit_or a b ≡ bit_or (a / 2) (b / 2) * 2 + max (a % 2) (b % 2)
bit_or_step zero b = omega (arith, bit_or-bitwise 0 b, bit_or-bitwise 0 (b / 2))
bit_or_step (suc a) b = omega (
  arith,
  bit_or-bitwise (suc a) b,
  bit_or-bitwise (suc a / 2) (b / 2),
  digits_enough (λ y. y) max a (suc a / 2) (suc a / 2) (b / 2) (omega arith) (omega arith),
)

pub zero-bit_or : (b : ℕ) → bit_or 0 b ≡ b
zero-bit_or b = bit_or-bitwise 0 b

bit_and-zero_below : (n a : ℕ) → a ≤ n → bit_and a 0 ≡ 0
bit_and-zero_below n zero h = refl
bit_and-zero_below zero (suc a) h = absurd (omega arith)
bit_and-zero_below (suc n) (suc a) h =
    omega (arith, bit_and_step (suc a) 0, bit_and-zero_below n (suc a / 2) (omega arith))

double_pow : (q k : ℕ) → q * 2 ^ suc k ≡ 2 * (q * 2 ^ k)
double_pow q k = omega (arith, ap (λ (t : ℕ). q * t) (pow-suc 2 k))

-- `low | (high << k)` is a sum when `low` has at most `k` bits.
pub bit_or_high : (k low high : ℕ) → low < 2 ^ k → bit_or low (high * 2 ^ k) ≡ low + high * 2 ^ k
bit_or_high zero low high fits = ground (arith, zero-bit_or high)
bit_or_high (suc k) low high fits = ground (
  arith,
  bit_or_step low (high * 2 ^ suc k),
  double_pow high k,
  pow-suc 2 k,
  bit_or_high k (low / 2) high,
)

low_ones : (k q r : ℕ) → r < 2 ^ k → bit_and (q * 2 ^ k + r) (2 ^ k - 1) ≡ r
low_ones zero q r fits = omega (arith, bit_and-zero_below (q * 1 + r) (q * 1 + r) (omega arith))
low_ones (suc k) q r fits = ground (
  arith,
  bit_and_step (q * 2 ^ suc k + r) (2 ^ suc k - 1),
  double_pow q k,
  pow-suc 2 k,
  one-le-pow k 2,
  low_ones k q (r / 2),
)

-- A mask of `k` ones is the remainder by `2 ^ k`.
pub bit_and_mask : (k a : ℕ) → bit_and a (2 ^ k - 1) ≡ a % 2 ^ k
bit_and_mask k a = ground (arith, one-le-pow k 2, low_ones k (a / 2 ^ k) (a % 2 ^ k))

-- One bit: the mask `2 ^ k` picks digit `k`.
pub bit_and_one_bit : (k a : ℕ) → bit_and a (2 ^ k) ≡ a / 2 ^ k % 2 * 2 ^ k
bit_and_one_bit zero a =
    omega (arith, bit_and_step a 1, bit_and-zero_below (a / 2) (a / 2) (omega arith))
bit_and_one_bit (suc k) a = ground (
  arith,
  bit_and_step a (2 ^ suc k),
  div-div-eq-div-mul a 2 (2 ^ k),
  pow-suc 2 k,
  double_pow (a / 2 / 2 ^ k % 2) k,
  bit_and_one_bit k (a / 2),
)

-- A shift to the right goes under `&`.
pub bit_and_shift : (k a m : ℕ) → bit_and a m / 2 ^ k ≡ bit_and (a / 2 ^ k) (m / 2 ^ k)
bit_and_shift zero a m = ground arith
bit_and_shift (suc k) a m = ground (
  arith,
  pow-suc 2 k,
  div-div-eq-div-mul (bit_and a m) 2 (2 ^ k),
  div-div-eq-div-mul a 2 (2 ^ k),
  div-div-eq-div-mul m 2 (2 ^ k),
  bit_and_step a m,
  bit_and_shift k (a / 2) (m / 2),
)
