-- ===== src/Variable/Tests.antt =====
-- Concrete variables, and the theorems at them.
use efivar.Common.{ℕ, ◌≡◌, refl, arith, List, [], ◌∷◌, replicate, some}
use efivar.Common.Outcome.{ok, err, einval}
use efivar.Guid.{Guid}
use efivar.Ucs2.Lengths.{utf8_of}
use efivar.Ucs2.Encode.{bytes_of}
use efivar.Variable.Export.{efi_variable_export, efi_variable_export_dmpstore}
use efivar.Variable.Import.{efi_variable_import, efi_variable_import_efivar}
use efivar.Variable.Image.Dmpstore.{whole}
use efivar.Common.Memory.{concat}
use efivar.Variable.Image.Efivar.{efivar_image, efi_variable_export-image}
use efivar.Variable.RoundTrip.{import-export_dmpstore}
use efivar.Variable.RoundTrip.Efivar.{import-export_efivar, import-export_efivar_small}

-- EFI_GLOBAL_GUID
abbrev global : Guid
global = record {
  a = 0x8be4df61;
  b = 0x93ca;
  c = 0x11d2;
  d = 0x0daa;
  e0 = 0;
  e1 = 0xe0;
  e2 = 0x98;
  e3 = 0x03;
  e4 = 0x2b;
  e5 = 0x8c;
}

-- "Boot"
abbrev boot : List ℕ
boot = 0x42 ∷ 0x6f ∷ 0x6f ∷ 0x74 ∷ []

abbrev contents : List ℕ
contents = 1 ∷ 2 ∷ 3 ∷ 4 ∷ 5 ∷ 6 ∷ 7 ∷ 8 ∷ []

import-export_dmpstore_example :
    (out : List ℕ) × (efi_variable_export_dmpstore
        (whole 7 global boot contents)
        (some (replicate 60 0))
      ≡ ok (record { rc = 50; buffer = out }))
    × (efi_variable_import out ≡ ok (record { rc = 50; var = whole 7 global boot contents }))
import-export_dmpstore_example =
    import-export_dmpstore 7 global boot contents (replicate 60 0) (omega arith) (omega arith)
      (omega arith) (omega arith) (omega arith) (omega arith) (omega arith) (omega arith)
      (unfold utf8_of bytes_of in omega arith)

import-export_efivar_example :
    (out : List ℕ) × (efi_variable_export (whole 7 global boot contents) (some (replicate 62 0))
      ≡ ok (record { rc = 62; buffer = out }))
    × (efi_variable_import out ≡ ok (record { rc = 66; var = whole 7 global boot contents }))
import-export_efivar_example =
    import-export_efivar 7 global boot contents (replicate 62 0) (omega arith) (omega arith)
      (omega arith) (omega arith) (omega arith) (omega arith) (omega arith) (omega arith)
      (omega arith) refl

import-export_efivar_small_example :
    (out : List ℕ) × (efi_variable_export
        (whole 7 global (0x42 ∷ []) (9 ∷ []))
        (some (replicate 49 0))
      ≡ ok (record { rc = 49; buffer = out }))
    × (efi_variable_import_efivar out ≡ err einval)
import-export_efivar_small_example =
    import-export_efivar_small 7 global (0x42 ∷ []) (9 ∷ []) (replicate 49 0) (omega arith)
      (omega arith) (omega arith) refl

efi_variable_export-image_example :
    efi_variable_export (whole 7 global boot contents) (some (replicate 64 0))
    ≡ ok (record { rc = 62; buffer = concat (efivar_image 7 global boot contents (0 ∷ 0 ∷ [])) })
efi_variable_export-image_example =
    efi_variable_export-image 7 global boot contents (replicate 64 0) (omega arith) (omega arith)
      (omega arith) (omega arith) (unfold utf8_of bytes_of in omega arith)
