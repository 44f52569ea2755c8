-- ===== src/Variable/Export.antt =====
-- src/export.c: `efi_variable_export` and `efi_variable_export_dmpstore`.
use efivar.Common.{
  ℕ, ◌+◌, ◌-◌, ◌*◌, ◌/◌, ◌%◌, ◌^◌, true, Option, none, some, List, [], ◌∷◌, ◌++◌, length, ltb, ◌==◌,
  if◌then◌else◌,
}
use efivar.Common.Words.{u32}
use efivar.Common.Outcome.{Outcome, ok, err, einval, eoverflow, ◌>>=◌, read}
use efivar.Common.Memory.{le_bytes, load, store}
use efivar.Crc32.{efi_crc32}
use efivar.Guid.Layout.{guid_bytes}
use efivar.Ucs2.{utf8size, utf8_to_ucs2}
use efivar.Variable.{Variable}

abbrev pub efivar_magic : ℕ
efivar_magic = 0xf3df1597

-- `if (ADD(a, b, &res)) goto overflow`, and the same of `MUL` and `SUB`, where `res` is a `uint32_t`.
unfoldable pub fit32 : ℕ → Outcome ℕ
fit32 n = if ltb n (2 ^ 32) then ok n else err eoverflow

unfoldable pub sub32 : ℕ → ℕ → Outcome ℕ
sub32 a b = if ltb a b then err eoverflow else ok (a - b)

-- What is returned, and the buffer afterwards. After an error the buffer is not kept.
pub record Exported : Type 0 where
  pub rc : ℕ
  pub buffer : List ℕ

-- The parts of a variable that the code tests for NULL first.
unfoldable pub checked_name : Variable → Outcome (List ℕ)
checked_name var = elim var.name [ none ↦ err einval | some name ↦ ok name ]

unfoldable pub checked_data : Variable → Outcome (List ℕ)
checked_data var = elim var.contents [ none ↦ err einval | some contents ↦ ok contents ]

-- `namesz`, and `needed` with the sizes of name and data added to that of the fixed part.
unfoldable pub sizes : ℕ → List ℕ → ℕ → Outcome (ℕ × ℕ)
unfolding fit32
sizes fixed name data_size = do
  size ← utf8size (name ++ (0 ∷ [])) none
  namesz ← fit32 (2 * u32 size)
  more ← fit32 (fixed + namesz)
  needed ← fit32 (more + data_size)
  ok (namesz, needed)

-- The units as memory holds them.
unfoldable pub unit_bytes : List ℕ → List ℕ
unit_bytes [] = []
unit_bytes (u ∷ us) = u % 256 ∷ u / 256 ∷ unit_bytes us

-- `utf8_to_ucs2(data + at, datasz - 8, true, var->name)`, after which both sizes are put right by what
-- the name did not take: `namesz`, `needed` and the buffer.
unfoldable pub write_name : ℕ → List ℕ → ℕ → ℕ → List ℕ → Outcome (ℕ × ℕ × List ℕ)
unfolding sub32 unit_bytes
write_name at name namesz needed buf = do
  w ← utf8_to_ucs2 (length buf - 8) true (name ++ (0 ∷ []))
  written ← store at (unit_bytes w.units) buf
  spare ← sub32 namesz (u32 (u32 w.rc * 2))
  needed' ← sub32 needed spare
  namesz' ← sub32 namesz spare
  ok (namesz', needed', written)

-- The CRC of all but the last four bytes is written behind them, at `at`.
unfoldable pub write_crc : ℕ → ℕ → List ℕ → Outcome (List ℕ)
write_crc needed at buf = do
  covered ← load 0 (needed - 4) buf
  store at (le_bytes 4 (efi_crc32 covered)) buf

-- The writes of `efi_variable_export`, in their order.
unfoldable pub fill_efivar : Variable → List ℕ → List ℕ → ℕ → ℕ → List ℕ → Outcome Exported
unfolding write_name write_crc
fill_efivar var name contents namesz needed buf0 = do
  buf1 ← store 0 (le_bytes 4 efivar_magic) buf0
  buf2 ← store 4 (le_bytes 4 1) buf1
  buf3 ← store 8 (le_bytes 8 var.attrs) buf2
  guid ← read var.guid
  buf4 ← store 16 (guid_bytes guid) buf3
  sized ← write_name 40 name namesz needed buf4
  let namesz' = sized.0
  let needed' = sized.1
  if ltb (length buf0) needed'
      then ok (record { rc = needed' - length buf0; buffer = sized.2 })
      else (do
        buf5 ← store 32 (le_bytes 4 namesz') sized.2
        buf6 ← store 36 (le_bytes 4 var.data_size) buf5
        bytes ← load 0 var.data_size contents
        buf7 ← store (40 + namesz') bytes buf6
        buf8 ← write_crc needed' (40 + namesz' + var.data_size) buf7
        ok (record { rc = needed'; buffer = buf8 }))

-- `efi_variable_export`. No buffer stands for a NULL one; with none or an empty one the size needed is
-- returned, with one that is too small the number of bytes missing.
unfoldable pub efi_variable_export : Variable → Option (List ℕ) → Outcome Exported
unfolding checked_name checked_data sizes fill_efivar
efi_variable_export var none = do
  name ← checked_name var
  contents ← checked_data var
  total ← sizes 44 name var.data_size
  ok (record { rc = total.1; buffer = [] })
efi_variable_export var (some buf) = do
  name ← checked_name var
  contents ← checked_data var
  total ← sizes 44 name var.data_size
  let needed = total.1
  if length buf == 0
      then ok (record { rc = needed; buffer = buf })
      else if ltb (length buf) needed
      then ok (record { rc = needed - length buf; buffer = buf })
      else fill_efivar var name contents total.0 needed buf

-- The writes of `efi_variable_export_dmpstore`, in their order.
unfoldable pub fill_dmpstore : Variable → List ℕ → List ℕ → ℕ → ℕ → List ℕ → Outcome Exported
unfolding write_name write_crc
fill_dmpstore var name contents namesz needed buf0 = do
  sized ← write_name 8 name namesz needed buf0
  let namesz' = sized.0
  let needed' = sized.1
  if ltb (length buf0) needed' then ok (record { rc = needed'; buffer = sized.2 }) else (do
    buf1 ← store 0 (le_bytes 4 namesz') sized.2
    buf2 ← store 4 (le_bytes 4 var.data_size) buf1
    guid ← read var.guid
    buf3 ← store (8 + namesz') (guid_bytes guid) buf2
    buf4 ← store (24 + namesz') (le_bytes 4 var.attrs) buf3
    bytes ← load 0 var.data_size contents
    buf5 ← store (28 + namesz') bytes buf4
    buf6 ← write_crc needed' (28 + namesz' + var.data_size) buf5
    ok (record { rc = needed'; buffer = buf6 }))

unfoldable pub efi_variable_export_dmpstore : Variable → Option (List ℕ) → Outcome Exported
unfolding checked_name checked_data sizes fill_dmpstore
efi_variable_export_dmpstore var none = do
  name ← checked_name var
  contents ← checked_data var
  total ← sizes 32 name var.data_size
  ok (record { rc = total.1; buffer = [] })
efi_variable_export_dmpstore var (some buf) = do
  name ← checked_name var
  contents ← checked_data var
  total ← sizes 32 name var.data_size
  let needed = total.1
  if length buf == 0
      then ok (record { rc = needed; buffer = buf })
      else if ltb (length buf) needed
      then ok (record { rc = needed - length buf; buffer = buf })
      else fill_dmpstore var name contents total.0 needed buf
