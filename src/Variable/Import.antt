-- ===== src/Variable/Import.antt =====
-- src/export.c: `efi_variable_import` and its two formats, with `*var_out` NULL. `length buf` is the size
-- that the caller passes.
use efivar.Common.{
  ℕ, ◌+◌, ◌-◌, ◌*◌, ◌%◌, ◌^◌, ◌||◌, ◌&&◌, not, none, some, List, [], ◌∷◌, length, drop, ltb, leb,
  ◌==◌, if◌then◌else◌,
}
use efivar.Common.Outcome.{Outcome, ok, err, fault, einval, eoverflow, ◌>>=◌, ◌>>◌, guard}
use efivar.Common.Memory.{load, load_le}
use efivar.Crc32.{efi_crc32}
use efivar.Guid.Layout.{guid_of_bytes}
use efivar.Ucs2.{ucs2_to_utf8}
use efivar.Variable.{Variable}
use efivar.Variable.Export.{efivar_magic}

-- The number of bytes that the variable took, and the variable.
pub record Imported : Type 0 where
  pub rc : ℕ
  pub var : Variable

-- The 16-bit units of memory.
unfoldable pub units_of : List ℕ → List ℕ
units_of [] = []
units_of (b ∷ []) = []
units_of (b ∷ c ∷ rest) = (b + 256 * c) ∷ units_of rest

-- `if (ADD(a, b, &res)) goto overflow` of `size_t`.
unfoldable pub fit64 : ℕ → Outcome ℕ
fit64 n = if ltb n (2 ^ 64) then ok n else err eoverflow

-- The four bytes at the end of the first `size` are the CRC of those before.
unfoldable pub check_crc : ℕ → List ℕ → Outcome (Unit {0})
check_crc size buf = do
  covered ← load 0 (size - 4) buf
  stored ← load_le (size - 4) 4 buf
  guard (stored == efi_crc32 covered) einval

-- What the code copies out once it has checked the sizes, the name's end and the CRC.
unfoldable pub read_dmpstore : ℕ → ℕ → ℕ → List ℕ → Outcome Imported
read_dmpstore namesz datasz size buf = do
  name ← ucs2_to_utf8 (units_of (drop 8 buf)) none
  guid ← load (8 + namesz) 16 buf
  attrs ← load_le (24 + namesz) 4 buf
  contents ← load (28 + namesz) datasz buf
  ok (record {
    rc = size;
    var = record {
      attrs = attrs;
      guid = some (guid_of_bytes guid);
      name = some name;
      contents = some contents;
      data_size = datasz;
    };
  })

unfoldable pub efi_variable_import_dmpstore : List ℕ → Outcome Imported
unfolding fit64 check_crc read_dmpstore
efi_variable_import_dmpstore buf = do
  guard (ltb 35 (length buf)) einval
  namesz ← load_le 0 4 buf
  guard (ltb 2 namesz) einval
  guard (namesz % 2 == 0) einval
  datasz ← load_le 4 4 buf
  guard (not (datasz == 0)) einval
  sz ← fit64 (32 + namesz)
  size ← fit64 (sz + datasz)
  guard (leb size (length buf)) einval
  last ← load_le (8 + namesz - 1) 1 buf
  before ← load_le (8 + namesz - 2) 1 buf
  guard (last == 0 && before == 0) einval
  check_crc size buf
  read_dmpstore namesz datasz size buf

-- The C string in a buffer: what is before the first NUL.
unfoldable pub c_string : List ℕ → List ℕ
c_string [] = []
c_string (b ∷ rest) = if b == 0 then [] else b ∷ c_string rest

-- `wname[i] & 0xff`
unfoldable pub low_bytes : List ℕ → List ℕ
low_bytes [] = []
low_bytes (u ∷ us) = u % 256 ∷ low_bytes us

-- `a - b` of `size_t`
unfoldable pub minus64 : ℕ → ℕ → ℕ
minus64 a b = (a + 2 ^ 64 - b) % 2 ^ 64

-- What the code copies out. It reads `name_len` units, which take twice as many bytes.
unfoldable pub read_efivar : ℕ → ℕ → ℕ → List ℕ → List ℕ → Outcome Imported
unfolding c_string low_bytes
read_efivar attrs name_len data_len guid buf = do
  wname ← load 40 (2 * name_len) buf
  contents ← load (40 + name_len) data_len buf
  ok (record {
    rc = 48 + name_len + data_len;
    var = record {
      attrs = attrs;
      guid = some (guid_of_bytes guid);
      name = some (c_string (low_bytes (units_of wname)));
      contents = some contents;
      data_size = data_len;
    };
  })

-- `min` starts at 51, and 3 of it are replaced by the two lengths.
unfoldable pub efi_variable_import_efivar : List ℕ → Outcome Imported
unfolding check_crc read_efivar minus64
efi_variable_import_efivar buf = do
  guard (ltb 51 (length buf)) einval
  magic ← load_le 0 4 buf
  guard (magic == efivar_magic) einval
  version ← load_le 4 4 buf
  guard (version == 1) einval
  attrs ← load_le 8 8 buf
  guid ← load 16 16 buf
  name_len ← load_le 32 4 buf
  data_len ← load_le 36 4 buf
  guard
      (not (
        ltb name_len 2
        || ltb (minus64 (length buf) data_len) name_len
        || ltb data_len 1
        || ltb (minus64 (length buf) name_len) data_len))
      einval
  check_crc (length buf) buf
  read_efivar attrs name_len data_len guid buf

-- The native format first, then that of dmpstore.
unfoldable pub efi_variable_import : List ℕ → Outcome Imported
unfolding efi_variable_import_efivar efi_variable_import_dmpstore
efi_variable_import buf = elim (efi_variable_import_efivar buf) [
  | ok got ↦ ok got
  | err e ↦ efi_variable_import_dmpstore buf
  | fault ↦ fault
]
