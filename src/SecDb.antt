-- ===== src/SecDb.antt =====
-- src/secdb.h and src/secdb.c: signature databases. A database is a head and its linked lists of entries, in order; an
-- entry of a list has an owner and data. Memory is taken to be there. A type is the number that its enumerator has.
pub mod Compare
pub mod Edit
pub mod Valid
pub mod Places
pub mod Add
pub mod Added
pub mod Visit
pub mod Realize
pub mod Realized
pub mod Written
pub mod Space
pub mod Parse
pub mod Chain
pub mod RoundTrip
mod Tests
use efivar.Common.{
  ℕ, zero, suc, ◌+◌, ◌-◌, ◌*◌, ◌^◌, Bool, true, false, not, ◌&&◌, ◌||◌, Option, none, some, List,
  [], ◌∷◌, get_or, ltb, leb, ◌==◌, if◌then◌else◌, bit_and, bit_or,
}
use efivar.Common.Words.{u32, u64}
use efivar.Common.Outcome.{Outcome, ok, err, einval}
use efivar.EslIter.{guid_size, list_header}
use efivar.EslIter.Layout.{Signature}

-- `secdb_entry_class_t`
pub data SecdbEntryClass : Type 0 where
  bad hash signature certificate_hash certificate : SecdbEntryClass

-- `secdb_alg_t` without its name and its GUID.
pub record SecdbAlg : Type 0 where
  pub class : SecdbEntryClass
  pub header_size : ℕ
  pub has_owner : Bool
  pub size : ℕ

abbrev alg : SecdbEntryClass → ℕ → SecdbAlg
alg class size = record { class = class; header_size = 0; has_owner = true; size = size }

-- `efi_secdb_algs_`, in the order of the enumerators.
unfoldable pub efi_secdb_algs : List SecdbAlg
efi_secdb_algs =
    alg certificate 0
    ∷ alg certificate_hash 256
    ∷ alg hash 32
    ∷ alg certificate_hash 512
    ∷ alg hash 64
    ∷ alg certificate_hash 384
    ∷ alg hash 28
    ∷ alg hash 48
    ∷ alg hash 20
    ∷ alg signature 256
    ∷ alg signature 256
    ∷ alg signature 256
    ∷ []

abbrev pub type_x509_cert : ℕ
type_x509_cert = 0

abbrev pub type_max : ℕ
type_max = 12

-- The row of a type below `type_max`.
unfoldable pub alg_of : ℕ → SecdbAlg
unfolding efi_secdb_algs
alg_of type = get_or efi_secdb_algs type (alg bad 0)

unfoldable pub secdb_entry_has_owner_from_type : ℕ → Outcome Bool
unfolding alg_of
secdb_entry_has_owner_from_type type =
    if leb type_max type then err einval else ok (alg_of type).has_owner

-- A `size_t`, with -1 for an unknown type.
unfoldable pub secdb_entry_size_from_type : ℕ → ℕ
unfolding alg_of
secdb_entry_size_from_type type =
    if leb type_max type
    then 2 ^ 64 - 1
    else (alg_of type).size + (if (alg_of type).has_owner then guid_size else 0)

-- An `int32_t` that is stored as a `uint32_t`.
unfoldable pub secdb_header_size_from_type : ℕ → ℕ
unfolding alg_of
secdb_header_size_from_type type =
    if leb type_max type then 2 ^ 32 - 1 else (alg_of type).header_size

-- `struct efi_secdb` without its links.
pub record Sublist : Type 0 where
  pub flags : ℕ
  pub algorithm : ℕ
  pub listsz : ℕ
  pub hdrsz : ℕ
  pub sigsz : ℕ
  pub nsigs : ℕ
  pub entries : List Signature

-- The head and the lists that are linked to it.
pub record Secdb : Type 0 where
  pub top : Sublist
  pub lists : List Sublist

-- `secdb_entry_size`
unfoldable pub secdb_entry_size : Sublist → ℕ
secdb_entry_size l =
    if l.nsigs == 0 then 0 else u64 (list_header + l.hdrsz + u64 (l.sigsz * l.nsigs))

unfoldable pub secdb_size : List Sublist → ℕ
unfolding secdb_entry_size
secdb_size [] = 0
secdb_size (l ∷ ls) = u64 (secdb_entry_size l + secdb_size ls)

abbrev pub flag_sort : ℕ
flag_sort = 0

abbrev pub flag_sort_data : ℕ
flag_sort_data = 1

abbrev pub flag_sort_descending : ℕ
flag_sort_descending = 2

-- `flags & (1ul << flag)`
unfoldable pub has_flag : ℕ → ℕ → Bool
has_flag flags flag = not (bit_and flags (2 ^ flag) == 0)

-- `efi_secdb_set_bool`
unfoldable pub efi_secdb_set_bool : Sublist → ℕ → Bool → Outcome Sublist
efi_secdb_set_bool l flag value =
    if ltb flag_sort_descending flag
    then err einval
    else ok (record l {
      flags = if value then bit_or l.flags (2 ^ flag) else bit_and l.flags (2 ^ 64 - 1 - 2 ^ flag);
    })

abbrev pub zeroed : Sublist
zeroed = record {
  flags = 0;
  algorithm = 0;
  listsz = 0;
  hdrsz = 0;
  sigsz = 0;
  nsigs = 0;
  entries = [];
}

-- The result of a call that is not looked at: after an error the list is as it was.
unfoldable pub set_flag : Sublist → ℕ → Bool → Sublist
unfolding efi_secdb_set_bool
set_flag l flag value = elim (efi_secdb_set_bool l flag value) [ ok l' ↦ l' | _ ↦ l ]

unfoldable pub efi_secdb_new : Secdb
unfolding set_flag
efi_secdb_new = record {
  top =
      set_flag (set_flag (set_flag zeroed flag_sort true) flag_sort_data false) flag_sort_descending
        false;
  lists = [];
}
