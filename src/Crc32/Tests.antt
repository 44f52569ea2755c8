-- ===== src/Crc32/Tests.antt =====
-- Concrete runs of the CRC, and the theorems at concrete inputs.
use efivar.Common.{ℕ, ◌-◌, ◌^◌, ◌≡◌, ◌≢◌, refl, arith, List, [], ◌∷◌, bit_xor}
use efivar.Crc32.{efi_crc32, crc32_tab}
use efivar.Crc32.Laws.{register, efi_crc32-eq-register, efi_crc32_detects_byte}

-- "123456789"
abbrev digits_1_to_9 : List ℕ
digits_1_to_9 = 0x31 ∷ 0x32 ∷ 0x33 ∷ 0x34 ∷ 0x35 ∷ 0x36 ∷ 0x37 ∷ 0x38 ∷ 0x39 ∷ []

-- The check value of CRC-32.
efi_crc32_check : efi_crc32 digits_1_to_9 ≡ 0xcbf43926
unfolding efi_crc32 crc32_tab
efi_crc32_check = refl

efi_crc32-eq-register_example :
    efi_crc32 digits_1_to_9 ≡ bit_xor (register digits_1_to_9 (2 ^ 32 - 1)) (2 ^ 32 - 1)
efi_crc32-eq-register_example = efi_crc32-eq-register digits_1_to_9 (omega arith)

efi_crc32_detects_byte_example : efi_crc32 (7 ∷ 1 ∷ 9 ∷ []) ≢ efi_crc32 (7 ∷ 2 ∷ 9 ∷ [])
efi_crc32_detects_byte_example =
    efi_crc32_detects_byte (7 ∷ []) (9 ∷ []) 1 2 (omega arith) (omega arith) (omega arith)
      (omega arith) (omega arith)
