-- ===== src/Crc32/Step.antt =====
-- One table lookup is eight steps of the shift register over the polynomial.
use efivar.Common.{
  ℕ, zero, suc, ◌*◌, ◌/◌, ◌%◌, ◌^◌, ◌<◌, ◌≡◌, refl, arith, get_or, bit_xor, ◌==◌, true, ==_iff,
  holds_below, holds_below-at, if◌then◌else◌,
}
use efivar.Common.Bits.{
  bit_xor-div, bit_xor-mod, bit_xor_assoc, bit_xor_comm, bit_xor-zero, bit_xor-shift, bit_and-mask,
  bit_xor-div_pow, mul-two_pow,
}
use native.Mathlib.Nat.{mul-one}
use efivar.Crc32.{crc32_tab, update}

-- The reversed polynomial that src/crc32.h names.
abbrev pub poly : ℕ
poly = 0xedb88320

-- One bit of the register is shifted out, and the polynomial is added if it was set.
unfoldable pub poly_step : ℕ → ℕ
poly_step x = if x % 2 == 1 then bit_xor (x / 2) poly else x / 2

unfoldable pub poly_steps : ℕ → ℕ → ℕ
unfolding poly_step
poly_steps zero x = x
poly_steps (suc k) x = poly_steps k (poly_step x)

-- Every entry of the table.
crc32_tab_check : holds_below (λ i. get_or crc32_tab i 0 == poly_steps 8 i) 256 ≡ true
unfolding holds_below poly_steps crc32_tab
crc32_tab_check = refl

pub crc32_tab-eq-poly_steps : (i : ℕ) → i < 256 → get_or crc32_tab i 0 ≡ poly_steps 8 i
crc32_tab-eq-poly_steps i h = (==_iff _ _).0 (holds_below-at _ 256 crc32_tab_check i h)

-- The bits above the lowest pass through a step unchanged, moved down by one.
poly_step-shift :
    (h k m : ℕ) → poly_step (bit_xor (h * 2 ^ suc k) m) ≡ bit_xor (h * 2 ^ k) (poly_step m)
unfolding poly_step
poly_step-shift h k m = ground (
  arith,
  bit_xor-div (h * 2 ^ suc k) m,
  bit_xor-mod (h * 2 ^ suc k) m,
  mul-two_pow h k,
  bit_xor_assoc (h * 2 ^ k) (m / 2) poly,
)

pub poly_steps-shift :
    (k h m : ℕ) → poly_steps k (bit_xor (h * 2 ^ k) m) ≡ bit_xor h (poly_steps k m)
unfolding poly_steps
poly_steps-shift zero h m = simp mul-one
poly_steps-shift (suc k) h m = rw (poly_step-shift h k m) (poly_steps-shift k h (poly_step m))

-- A table lookup is eight steps.
pub update-eq-poly_steps : (val b : ℕ) → b < 256 → update val b ≡ poly_steps 8 (bit_xor val b)
unfolding update
update-eq-poly_steps val b h = ground (
  arith,
  bit_and-mask 8 x,
  crc32_tab-eq-poly_steps (x % 2 ^ 8),
  bit_xor-shift 8 (x / 2 ^ 8) (x % 2 ^ 8),
  poly_steps-shift 8 (x / 2 ^ 8) (x % 2 ^ 8),
  bit_xor-div_pow 8 val b,
  bit_xor-zero (val / 2 ^ 8),
  bit_xor_comm (get_or crc32_tab (x % 2 ^ 8) 0) (val / 2 ^ 8),
)
  where
    x : ℕ
    x = bit_xor val b
