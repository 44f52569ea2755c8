-- ===== src/Common/Bits/Fields.antt =====
-- `|` and `^` of disjoint fields, and `&` with a low mask, as arithmetic, at every width.
use Prim.Native.Nat.{ℕ, zero, suc, ◌+◌, ◌-◌, ◌*◌, ◌/◌, ◌%◌, ◌^◌, ◌≤◌, ◌<◌, bit_and, bit_or, bit_xor}
use mathlib.Core.Path.{◌≡◌, refl, ap}
use native.Mathlib.Omega.{arith}
use native.Mathlib.Nat.{pow-suc, one-le-pow, div-div-eq-div-mul, div-one, mul-div_cancel}
use efivar.Common.Bits.Step.{bit_and_step, bit_or_step, bit_xor_step}
use efivar.Common.Bits.Xor.{bit_xor-zero}

pub mul-two_pow : (q k : ℕ) → q * 2 ^ suc k ≡ q * 2 ^ k * 2
mul-two_pow q k = omega (arith, ap (λ (t : ℕ). q * t) (pow-suc 2 k))

or-zero_below : (n a : ℕ) → a ≤ n → bit_or a 0 ≡ a
or-zero_below zero zero h = refl
or-zero_below zero (suc a) h = absurd (omega arith)
or-zero_below (suc n) a h = omega (arith, bit_or_step a 0, or-zero_below n (a / 2) (omega arith))

pub bit_or-zero : (a : ℕ) → bit_or a 0 ≡ a
bit_or-zero a = or-zero_below a a (omega arith)

and-zero_below : (n a : ℕ) → a ≤ n → bit_and a 0 ≡ 0
and-zero_below zero zero h = refl
and-zero_below zero (suc a) h = absurd (omega arith)
and-zero_below (suc n) a h = omega (arith, bit_and_step a 0, and-zero_below n (a / 2) (omega arith))

pub bit_and-zero : (a : ℕ) → bit_and a 0 ≡ 0
bit_and-zero a = and-zero_below a a (omega arith)

-- `(q << k) | r` is a sum when `r` has at most `k` bits.
pub bit_or-shift : (k q r : ℕ) → r < 2 ^ k → bit_or (q * 2 ^ k) r ≡ q * 2 ^ k + r
bit_or-shift zero q r h = ground (arith, bit_or-zero q)
bit_or-shift (suc k) q r h =
    ground
      (arith, mul-two_pow q k, pow-suc 2 k, bit_or_step (q * 2 ^ suc k) r, bit_or-shift k q (r / 2))

pub bit_xor-shift : (k q r : ℕ) → r < 2 ^ k → bit_xor (q * 2 ^ k) r ≡ q * 2 ^ k + r
bit_xor-shift zero q r h = ground (arith, bit_xor-zero q)
bit_xor-shift (suc k) q r h =
    ground (
      arith,
      mul-two_pow q k,
      pow-suc 2 k,
      bit_xor_step (q * 2 ^ suc k) r,
      bit_xor-shift k q (r / 2),
    )

bit_and-low : (k q r : ℕ) → r < 2 ^ k → bit_and (q * 2 ^ k + r) (2 ^ k - 1) ≡ r
bit_and-low zero q r h = ground (arith, bit_and-zero (q * 1 + r))
bit_and-low (suc k) q r h = ground (
  arith,
  mul-two_pow q k,
  pow-suc 2 k,
  one-le-pow k 2,
  bit_and_step (q * 2 ^ suc k + r) (2 ^ suc k - 1),
  bit_and-low k q (r / 2),
)

-- A mask of the `k` low bits is the remainder by `2 ^ k`.
pub bit_and-mask : (k a : ℕ) → bit_and a (2 ^ k - 1) ≡ a % 2 ^ k
bit_and-mask k a = ground (arith, one-le-pow k 2, bit_and-low k (a / 2 ^ k) (a % 2 ^ k))

bit_and-div : (a b : ℕ) → bit_and a b / 2 ≡ bit_and (a / 2) (b / 2)
bit_and-div a b = omega (arith, bit_and_step a b)

bit_and-div_pow : (k a b : ℕ) → bit_and a b / 2 ^ k ≡ bit_and (a / 2 ^ k) (b / 2 ^ k)
bit_and-div_pow zero a b = simp div-one
bit_and-div_pow (suc k) a b =
    simp (pow-suc, ← div-div-eq-div-mul, bit_and-div_pow k a b, bit_and-div)

-- A field of `w` bits above the `k` low ones.
pub bit_and-field : (k w a : ℕ) → bit_and a ((2 ^ w - 1) * 2 ^ k) / 2 ^ k ≡ a / 2 ^ k % 2 ^ w
bit_and-field k w a = ground (
  arith,
  one-le-pow k 2,
  bit_and-div_pow k a ((2 ^ w - 1) * 2 ^ k),
  mul-div_cancel (2 ^ w - 1) (one-le-pow k 2 (omega arith)),
  bit_and-mask w (a / 2 ^ k),
)
