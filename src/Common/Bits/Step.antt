-- ===== src/Common/Bits/Step.antt =====
-- One equation for the lowest binary digit of each operation.
use Prim.Native.Nat.{
  ℕ, zero, suc, ◌+◌, ◌*◌, ◌/◌, ◌%◌, ◌≤◌, ◌<◌, min, max, bit_and, bit_or, bit_xor, digits, differ,
  bit_and-bitwise, bit_or-bitwise, bit_xor-bitwise,
}
use mathlib.Core.Path.{◌≡◌, refl}
use native.Mathlib.Omega.{arith}

-- The count of digits plays no part once it is as large as the first number.
module _ (z : ℕ → ℕ) (f : ℕ → ℕ → ℕ) where
  digits_any : (n m x y : ℕ) → x ≤ n → x ≤ m → digits z f n x y ≡ digits z f m x y
  digits_any zero zero x y p q = refl
  digits_any (suc n) zero zero y p q = refl
  digits_any (suc n) zero (suc x) y p q = absurd (omega arith)
  digits_any zero (suc m) zero y p q = refl
  digits_any zero (suc m) (suc x) y p q = absurd (omega arith)
  digits_any (suc n) (suc m) zero y p q = refl
  digits_any (suc n) (suc m) (suc x) y p q =
      omega (arith, digits_any n m (suc x / 2) (y / 2) (omega arith) (omega arith))

  digits_step :
      (x y : ℕ)
      → digits z f (suc x) (suc x) y
        ≡ digits z f (suc x / 2) (suc x / 2) (y / 2) * 2 + f (suc x % 2) (y % 2)
  digits_step x y =
      omega (arith, digits_any x (suc x / 2) (suc x / 2) (y / 2) (omega arith) (omega arith))

differ_two : (x y : ℕ) → x < 2 → y < 2 → differ x y ≡ (x + y) % 2
differ_two zero zero p q = refl
differ_two zero (suc zero) p q = refl
differ_two (suc zero) zero p q = refl
differ_two (suc zero) (suc zero) p q = refl
differ_two (suc (suc x)) y p q = absurd (omega arith)
differ_two zero (suc (suc y)) p q = absurd (omega arith)
differ_two (suc zero) (suc (suc y)) p q = absurd (omega arith)

pub bit_xor_step : (x y : ℕ) → bit_xor x y ≡ bit_xor (x / 2) (y / 2) * 2 + (x % 2 + y % 2) % 2
bit_xor_step zero y = simp bit_xor-bitwise (omega arith)
bit_xor_step (suc x) y = omega (
  arith,
  bit_xor-bitwise (suc x) y,
  bit_xor-bitwise (suc x / 2) (y / 2),
  digits_step (λ t. t) differ x y,
  differ_two (suc x % 2) (y % 2) (omega arith) (omega arith),
)

pub bit_or_step : (x y : ℕ) → bit_or x y ≡ max (x % 2) (y % 2) + bit_or (x / 2) (y / 2) * 2
bit_or_step zero y = omega (arith, bit_or-bitwise 0 y, bit_or-bitwise 0 (y / 2))
bit_or_step (suc x) y = omega (
  arith,
  bit_or-bitwise (suc x) y,
  bit_or-bitwise (suc x / 2) (y / 2),
  digits_step (λ t. t) max x y,
)

pub bit_and_step : (x y : ℕ) → bit_and x y ≡ min (x % 2) (y % 2) + bit_and (x / 2) (y / 2) * 2
bit_and_step zero y = omega (arith, bit_and-bitwise 0 y, bit_and-bitwise 0 (y / 2))
bit_and_step (suc x) y = omega (
  arith,
  bit_and-bitwise (suc x) y,
  bit_and-bitwise (suc x / 2) (y / 2),
  digits_step (λ t. 0) min x y,
)
