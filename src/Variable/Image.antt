-- ===== src/Variable/Image.antt =====
-- src/export.c: the bytes that the export functions leave, as blocks.
pub mod Dmpstore
pub mod Efivar
use efivar.Common.{
  ℕ, ◌+◌, ◌-◌, ◌*◌, ◌^◌, ◌≤◌, ◌<◌, ◌≡◌, refl, List, [], ◌∷◌, ◌++◌, length, All, arith,
  length-append,
}
use efivar.Common.Outcome.{ok}
use efivar.Common.Memory.{le_bytes, concat, store-block, load-front, length-le_bytes}
use efivar.Crc32.{efi_crc32}
use efivar.Ucs2.Lengths.{IsUnit, utf8_of, utf8size-string}
use efivar.Ucs2.RoundTrip.{utf8_to_ucs2-string}
use efivar.Common.{◌%◌, ◌/◌, ap, append_assoc, All-append}
use efivar.Common.Words.{IsByte}
use efivar.Common.Memory.{load_le-block}
use efivar.Crc32.Laws.{efi_crc32-lt}
use efivar.Variable.Import.{units_of, check_crc}
use efivar.Variable.Export.{sizes, write_name, write_crc, unit_bytes}

pub length-unit_bytes : (us : List ℕ) → length (unit_bytes us) ≡ 2 * length us
unfolding unit_bytes
length-unit_bytes [] = refl
length-unit_bytes (u ∷ us) = omega (arith, length-unit_bytes us)

-- The name as it stands in the file, its NUL included.
pub name_bytes : List ℕ → List ℕ
name_bytes s = unit_bytes (s ++ (0 ∷ []))

pub length-name_bytes : (s : List ℕ) → length (name_bytes s) ≡ 2 * length s + 2
unfolding name_bytes
length-name_bytes s = omega (arith, length-unit_bytes (s ++ (0 ∷ [])), length-append s (0 ∷ []))

pub sizes-string :
    (fixed : ℕ) (s : List ℕ) (data_size : ℕ)
    → All IsUnit s
    → fixed + (2 * length s + 2) + data_size < 2 ^ 32
    → sizes fixed (utf8_of s) data_size
      ≡ ok (2 * length s + 2, fixed + (2 * length s + 2) + data_size)
unfolding sizes
sizes-string fixed s data_size h fits = ground (arith, utf8size-string s [] h)

pub write_name-block :
    (at : ℕ) (s : List ℕ) (needed : ℕ) (front : List (List ℕ)) (old : List ℕ) (back : List (List ℕ))
    → All IsUnit s
    → 0 < length s
    → length s < 2 ^ 30
    → length (utf8_of s) ≤ length (concat (front ++ (old ∷ back))) - 8
    → 2 * length s + 1 ≤ length (concat (front ++ (old ∷ back))) - 8
    → at ≡ length (concat front)
    → length old ≡ 2 * length s + 2
    → write_name at (utf8_of s) (2 * length s + 2) needed (concat (front ++ (old ∷ back)))
      ≡ ok (2 * length s + 2, needed, concat (front ++ (name_bytes s ∷ back)))
unfolding write_name name_bytes
write_name-block at s needed front old back h pos small fits room p q = ground (
  arith,
  utf8_to_ucs2-string (length (concat (front ++ (old ∷ back))) - 8) s [] h pos fits room,
  store-block at front old (unit_bytes (s ++ (0 ∷ []))) back p,
  length-unit_bytes (s ++ (0 ∷ [])),
  length-append s (0 ∷ []),
)

pub write_crc-block :
    (needed at : ℕ) (front : List (List ℕ)) (old : List ℕ) (back : List (List ℕ))
    → at ≡ length (concat front)
    → needed ≡ at + 4
    → length old ≡ 4
    → write_crc needed at (concat (front ++ (old ∷ back)))
      ≡ ok (concat (front ++ (le_bytes 4 (efi_crc32 (concat front)) ∷ back)))
unfolding write_crc
write_crc-block needed at front old back p q r = ground (
  arith,
  load-front (needed - 4) front (old ∷ back),
  length-le_bytes 4 (efi_crc32 (concat front)),
  store-block at front old (le_bytes 4 (efi_crc32 (concat front))) back p,
)

unit_bytes-append : (us vs : List ℕ) → unit_bytes (us ++ vs) ≡ unit_bytes us ++ unit_bytes vs
unfolding unit_bytes
unit_bytes-append [] vs = refl
unit_bytes-append (u ∷ us) vs = rw (unit_bytes-append us vs)

-- The name ends in two zero bytes.
pub name_bytes-end : (s : List ℕ) → name_bytes s ≡ unit_bytes s ++ (0 ∷ 0 ∷ [])
unfolding name_bytes unit_bytes
name_bytes-end s = unit_bytes-append s (0 ∷ [])

units_of-unit_bytes : (us rest : List ℕ) → units_of (unit_bytes us ++ rest) ≡ us ++ units_of rest
unfolding unit_bytes units_of
units_of-unit_bytes [] rest = refl
units_of-unit_bytes (u ∷ us) rest =
    let same : u % 256 + 256 * (u / 256) ≡ u = omega arith in
    rw same (ap (◌∷◌ u) (units_of-unit_bytes us rest))

-- Behind the name bytes of a string the code finds the string and its NUL.
pub units_of-name_bytes :
    (s rest : List ℕ) → units_of (name_bytes s ++ rest) ≡ s ++ (0 ∷ units_of rest)
unfolding name_bytes
units_of-name_bytes s rest =
    rw (units_of-unit_bytes (s ++ (0 ∷ [])) rest) (append_assoc s (0 ∷ []) (units_of rest))

unit_bytes-All : (us : List ℕ) → All IsUnit us → All IsByte (unit_bytes us)
unfolding unit_bytes
unit_bytes-All [] h = tt
unit_bytes-All (u ∷ us) h = (omega arith, (omega arith, unit_bytes-All us h.1))

pub name_bytes-All : (s : List ℕ) → All IsUnit s → All IsByte (name_bytes s)
name_bytes-All s h =
    rw (name_bytes-end s)
      (All-append IsByte (unit_bytes s) (0 ∷ 0 ∷ []) (unit_bytes-All s h) (omega arith))

-- `check_crc` accepts a buffer that holds the CRC of what is before it.
pub check_crc-block :
    (size : ℕ) (front back : List (List ℕ))
    → All IsByte (concat front)
    → size ≡ length (concat front) + 4
    → check_crc size (concat (front ++ (le_bytes 4 (efi_crc32 (concat front)) ∷ back))) ≡ ok tt
unfolding check_crc
check_crc-block size front back h p = ground (
  arith,
  load-front (size - 4) front (le_bytes 4 (efi_crc32 (concat front)) ∷ back),
  load_le-block (size - 4) 4 front (efi_crc32 (concat front)) back,
  efi_crc32-lt (concat front) h,
)

pub name_bytes-eq : (s : List ℕ) → name_bytes s ≡ unit_bytes (s ++ (0 ∷ []))
unfolding name_bytes
name_bytes-eq s = refl
