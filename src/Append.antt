-- ===== src/Append.antt =====
-- src/generics.h: `generic_append_variable`, over the operations of a back end.
pub mod Appended
mod Tests
use efivar.Common.{
  ℕ, ◌-◌, ◌^◌, Bool, true, false, not, List, ◌++◌, ◌==◌, bit_and, bit_or, if◌then◌else◌,
}
use efivar.Common.Outcome.{
  Outcome, ok, err, fault, Errno, einval, enospc, eoverflow, enomem, enoent, enosys, eperm, unset,
}
use efivar.Guid.{Guid}

-- The variable operations of a back end with a state: `efi_get_variable` returns the data and the attributes, and the
-- other two return what the call returns, and the state afterwards.
pub record BackEnd (S : Type 0) : Type 0 where
  pub efi_get_variable : Guid → List ℕ → S → Outcome (List ℕ × ℕ)
  pub efi_del_variable : Guid → List ℕ → S → Outcome (Unit {0}) × S
  pub efi_set_variable : Guid → List ℕ → List ℕ → ℕ → S → Outcome (Unit {0}) × S

abbrev pub efi_variable_append_write : ℕ
efi_variable_append_write = 0x40

-- `attributes & ~EFI_VARIABLE_APPEND_WRITE`
unfoldable pub without_append : ℕ → ℕ
without_append attributes = bit_and attributes (2 ^ 32 - 1 - efi_variable_append_write)

unfoldable pub same_attributes : ℕ → ℕ → Bool
same_attributes a b = bit_or a efi_variable_append_write == bit_or b efi_variable_append_write

unfoldable pub is_enoent : Errno → Bool
is_enoent enoent = true
is_enoent einval = false
is_enoent enospc = false
is_enoent eoverflow = false
is_enoent enomem = false
is_enoent enosys = false
is_enoent eperm = false
is_enoent unset = false

module _ {S : Type 0} (ops : BackEnd S) (guid : Guid) (name : List ℕ) where
  -- The write of the longer variable after the deletion, which is not tried if the deletion failed.
  unfoldable pub after_deletion : List ℕ → ℕ → Outcome (Unit {0}) × S → Outcome (Unit {0}) × S
  after_deletion d attributes (ok _, st) = ops.efi_set_variable guid name d attributes st
  after_deletion d attributes (err e, st) = (err e, st)
  after_deletion d attributes (fault, st) = (fault, st)

  -- What is done with the answer of `efi_get_variable`. Memory for the longer variable is taken to be there.
  unfoldable pub append_to : List ℕ → ℕ → S → Outcome (List ℕ × ℕ) → Outcome (Unit {0}) × S
  unfolding after_deletion without_append same_attributes is_enoent
  append_to new_data new_attributes st (ok (old, attributes)) =
      if not (same_attributes attributes new_attributes)
      then (err einval, st)
      else after_deletion (old ++ new_data) (without_append attributes)
          (ops.efi_del_variable guid name st)
  append_to new_data new_attributes st (err e) =
      if is_enoent e
      then ops.efi_set_variable guid name new_data (without_append new_attributes) st
      else (err e, st)
  append_to new_data new_attributes st fault = (fault, st)

  unfoldable pub generic_append_variable : List ℕ → ℕ → S → Outcome (Unit {0}) × S
  unfolding append_to
  generic_append_variable new_data new_attributes st =
      append_to new_data new_attributes st (ops.efi_get_variable guid name st)
