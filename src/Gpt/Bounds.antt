-- ===== src/Gpt/Bounds.antt =====
-- src/gpt.c: what `validate_nptes` accepts.
use efivar.Common.{◌≡◌, true, ℕ, ◌<◌, ◌≤◌, ◌-◌, ◌*◌, ◌/◌, ◌↔◌, arith, ◌^◌}
use native.Mathlib.Nat.{le-div_iff_mul-le, mul-le-mul_left}
use efivar.Common.Outcome.{ok, fault}
use efivar.Gpt.{validate_nptes, uint64_max}

-- The array of entries lies between the blocks given.
pub record Fits (first start last ptesz nptes blksz : ℕ) : Type 0 where
  pub large : 128 ≤ ptesz
  pub some_entry : 0 < nptes
  pub behind : first ≤ start
  pub before : start ≤ last
  pub room : nptes * ptesz ≤ (last - start) * blksz
  pub narrow : (last - start) * blksz * ptesz < 2 ^ 64

module _ (first start last ptesz nptes blksz : ℕ) (pos : 0 < blksz) where
  blocks_fit : (m : ℕ) → (m ≤ uint64_max / blksz) ↔ (m * blksz ≤ uint64_max)
  blocks_fit m = le-div_iff_mul-le pos

  bytes_fit : 128 ≤ ptesz → (last - start) * blksz ≤ (last - start) * blksz * ptesz
  bytes_fit large =
      omega (arith, mul-le-mul_left {m = 1} {n = ptesz} ((last - start) * blksz) (omega arith))

  quotient : (bytes k n : ℕ) → 0 < k → (n ≤ bytes / k) ↔ (n * k ≤ bytes)
  quotient bytes k n p = le-div_iff_mul-le p

  -- `validate_nptes` accepts exactly the arrays of entries of at least 128 bytes, at least one of them, that start between
  -- the two blocks and end before the last one, if the bytes up to the last block, times the size of an entry, are
  -- below 2^64. The block size is not 0.
  pub validate_nptes_iff :
      (validate_nptes first start last ptesz nptes blksz ≡ ok true)
      ↔ Fits first start last ptesz nptes blksz
  unfolding validate_nptes
  validate_nptes_iff = ground (
    arith,
    blocks_fit (last - start),
    quotient uint64_max ptesz ((last - start) * blksz),
    quotient ((last - start) * blksz) nptes ptesz,
    quotient ((last - start) * blksz) ptesz nptes,
    bytes_fit,
  )

  -- An array of no entries where one could lie.
  pub validate_nptes-no_entries :
      128 ≤ ptesz
      → first ≤ start
      → start ≤ last
      → (last - start) * blksz * ptesz < 2 ^ 64
      → validate_nptes first start last ptesz 0 blksz ≡ fault
  unfolding validate_nptes
  validate_nptes-no_entries large behind before narrow = ground (
    arith,
    blocks_fit (last - start),
    quotient uint64_max ptesz ((last - start) * blksz),
    bytes_fit,
  )
