-- ===== src/Guid/Tests.antt =====
-- Concrete GUIDs, and the theorems at them.
use Prim.Native.Nat.{compare}
use efivar.Common.{◌≡◌, refl, arith, none, some, ◌∷◌, [], ◌++◌}
use efivar.Guid.{Guid, efi_guid_to_str, text_to_guid, efi_guid_cmp, format_guid, check_sanity}
use efivar.Guid.Text.{text_to_guid-efi_guid_to_str}
use efivar.Guid.Order.{guid_number, efi_guid_cmp-eq-compare}

-- 84be9c3e-8a32-42c0-891c-4cd3b072becc
abbrev sample : Guid
sample = record {
  a = 0x84be9c3e;
  b = 0x8a32;
  c = 0x42c0;
  d = 0x1c89;
  e0 = 0x4c;
  e1 = 0xd3;
  e2 = 0xb0;
  e3 = 0x72;
  e4 = 0xbe;
  e5 = 0xcc;
}

-- EFI_GLOBAL_GUID
abbrev global : Guid
global = record {
  a = 0x8be4df61;
  b = 0x93ca;
  c = 0x11d2;
  d = 0x0daa;
  e0 = 0;
  e1 = 0xe0;
  e2 = 0x98;
  e3 = 0x03;
  e4 = 0x2b;
  e5 = 0x8c;
}

sample_text :
    efi_guid_to_str sample
    ≡ b'8' ∷ b'4' ∷ b'b' ∷ b'e' ∷ b'9' ∷ b'c' ∷ b'3' ∷ b'e' ∷ b'-' ∷ b'8' ∷ b'a' ∷ b'3' ∷ b'2'
      ∷ b'-' ∷ b'4' ∷ b'2' ∷ b'c' ∷ b'0' ∷ b'-' ∷ b'8' ∷ b'9' ∷ b'1' ∷ b'c' ∷ b'-' ∷ b'4' ∷ b'c'
      ∷ b'd' ∷ b'3' ∷ b'b' ∷ b'0' ∷ b'7' ∷ b'2' ∷ b'b' ∷ b'e' ∷ b'c' ∷ b'c' ∷ []
unfolding efi_guid_to_str format_guid
sample_text = refl

-- A text of 37 characters must have a space behind the 36.
sample_trailing : text_to_guid (efi_guid_to_str sample ++ (b'x' ∷ [])) ≡ none
unfolding text_to_guid efi_guid_to_str format_guid check_sanity
sample_trailing = refl

text_to_guid-efi_guid_to_str_example :
    (text_to_guid (efi_guid_to_str sample) ≡ some sample)
    × (text_to_guid (b'{' ∷ (efi_guid_to_str sample ++ (b'}' ∷ []))) ≡ some sample)
text_to_guid-efi_guid_to_str_example = text_to_guid-efi_guid_to_str sample (omega arith)

efi_guid_cmp-eq-compare_example :
    efi_guid_cmp sample global ≡ compare (guid_number sample) (guid_number global)
efi_guid_cmp-eq-compare_example = efi_guid_cmp-eq-compare sample global (omega arith) (omega arith)
