-- ===== src/Crc32.antt =====
-- src/crc32.c and `efi_crc32` of src/crc32.h: the table-driven CRC-32.
mod Table
pub mod Step
pub mod Laws
mod Tests
unfoldable pub use Table.*
use efivar.Common.{ℕ, zero, suc, ◌+◌, ◌-◌, ◌/◌, ◌^◌, List, [], ◌∷◌, get_or, bit_and, bit_xor}

-- `crc32_tab[(val ^ s[i]) & 0xff] ^ (val >> 8)`. The index is below 256, the size of the table, so the
-- default is never taken (`Crc32.Step.crc32_tab-eq-poly_steps`).
unfoldable pub update : ℕ → ℕ → ℕ
update val b = bit_xor (get_or crc32_tab (bit_and (bit_xor val b) 0xff) 0) (val / 2 ^ 8)

-- The loop over the bytes of the buffer that are left.
unfoldable pub crc32 : List ℕ → ℕ → ℕ
unfolding update
crc32 [] val = val
crc32 (b ∷ rest) val = crc32 rest (update val b)

-- `crc32(buf, len, ~0L) ^ ~0L`, cut to 32 bits.
unfoldable pub efi_crc32 : List ℕ → ℕ
unfolding crc32
efi_crc32 buf = bit_xor (crc32 buf 0xffffffff) 0xffffffff
