-- ===== src/Variable.antt =====
-- `struct efi_variable` of src/lib.h, and its accessors of src/export.c.
pub mod Export
pub mod Import
pub mod Image
pub mod RoundTrip
mod Tests
use efivar.Common.{
  ℕ, ◌==◌, ◌%◌, ◌^◌, Bool, true, false, Option, none, some, List, [], ◌∷◌, if◌then◌else◌, not, ◌||◌,
  ◌&&◌, bit_and,
}
use efivar.Common.Outcome.{Outcome, ok, err, fault, einval, enoent, eperm, unset, ◌>>=◌, read}
use efivar.Guid.{Guid}

-- A pointer that may be NULL is an Option. A name is the bytes of UTF-8 without the NUL.
pub record Variable : Type 0 where
  pub attrs : ℕ
  pub guid : Option Guid
  pub name : Option (List ℕ)
  pub contents : Option (List ℕ)
  pub data_size : ℕ

abbrev pub attrs_unset : ℕ
attrs_unset = 0xa5a5a5a5a5a5a5a5

pub efi_variable_alloc : Variable
efi_variable_alloc = record {
  attrs = attrs_unset;
  guid = none;
  name = none;
  contents = none;
  data_size = 0;
}

pub efi_variable_set_name : Variable → List ℕ → Variable
efi_variable_set_name var name = record {
  attrs = var.attrs;
  guid = var.guid;
  name = some name;
  contents = var.contents;
  data_size = var.data_size;
}

-- The name, or NULL with ENOENT.
pub efi_variable_get_name : Variable → Outcome (List ℕ)
efi_variable_get_name var = elim var.name [ none ↦ err enoent | some name ↦ ok name ]

pub efi_variable_set_guid : Variable → Guid → Variable
efi_variable_set_guid var guid = record {
  attrs = var.attrs;
  guid = some guid;
  name = var.name;
  contents = var.contents;
  data_size = var.data_size;
}

pub efi_variable_get_guid : Variable → Outcome Guid
efi_variable_get_guid var = elim var.guid [ none ↦ err enoent | some guid ↦ ok guid ]

pub efi_variable_set_data : Variable → List ℕ → ℕ → Outcome Variable
efi_variable_set_data var contents size =
    if size == 0
    then err einval
    else ok (record {
      attrs = var.attrs;
      guid = var.guid;
      name = var.name;
      contents = some contents;
      data_size = size;
    })

pub efi_variable_get_data : Variable → Outcome (List ℕ × ℕ)
efi_variable_get_data var = elim var.contents [
  | none ↦ err enoent
  | some contents ↦ (if var.data_size == 0 then err enoent else ok (contents, var.data_size))
]

pub efi_variable_set_attributes : Variable → ℕ → Variable
efi_variable_set_attributes var attrs = record {
  attrs = attrs;
  guid = var.guid;
  name = var.name;
  contents = var.contents;
  data_size = var.data_size;
}

pub efi_variable_get_attributes : Variable → Outcome ℕ
efi_variable_get_attributes var = if var.attrs == attrs_unset then err enoent else ok var.attrs
