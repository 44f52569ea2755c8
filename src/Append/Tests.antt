-- ===== src/Append/Tests.antt =====
-- A store of one variable, and an append to it.
use efivar.Common.{
  ℕ, ◌/◌, ◌%◌, ◌==◌, ◌++◌, if◌then◌else◌, if-true, ◌≡◌, refl, ap, sym, ◌∙◌, true, arith, Option,
  none, some, List, [], ◌∷◌,
}
use efivar.Common.Outcome.{Outcome, ok, err, einval, enoent}
use efivar.Guid.{Guid}
use efivar.Append.{
  BackEnd, without_append, same_attributes, is_enoent, after_deletion, append_to,
  generic_append_variable,
}
use efivar.Append.Appended.{Appended, no_append_flag, ReadsBack, generic_append_variable-Appended}

abbrev Slot : Type 0
Slot = Option (List ℕ × ℕ)

abbrev read_slot : Slot → Outcome (List ℕ × ℕ)
read_slot none = err enoent
read_slot (some v) = ok v

-- A write with EFI_VARIABLE_APPEND_WRITE goes behind what is there, and one of no data deletes, as on efivarfs.
abbrev held : Slot → List ℕ
held none = []
held (some v) = v.0

abbrev write_slot : List ℕ → ℕ → Slot → Slot
write_slot [] attributes st = none
write_slot (b ∷ d) attributes st =
    if attributes / 64 % 2 == 0
    then some (b ∷ d, attributes)
    else some (held st ++ (b ∷ d), without_append attributes)

abbrev slot : BackEnd Slot
slot = record {
  efi_get_variable = λ guid name st. read_slot st;
  efi_del_variable = λ guid name st. (ok tt, none);
  efi_set_variable = λ guid name d attributes st. (ok tt, write_slot d attributes st);
}

abbrev some_guid : Guid
some_guid = record { a = 1; b = 2; c = 3; d = 4; e0 = 5; e1 = 6; e2 = 7; e3 = 8; e4 = 9; e5 = 10 }

-- The slot reads back what is written without the flag.
slot_reads : ReadsBack slot some_guid (65 ∷ []) 0x47
slot_reads [] a s s1 pos same h = absurd (omega arith)
slot_reads (b ∷ d) a s s1 pos same h =
    let plain : (without_append a / 64 % 2 == 0) ≡ true = ground (arith, no_append_flag a) in
    ap (λ (r : Outcome (Unit {0}) × Slot). read_slot r.1) (sym h)
    ∙ ap read_slot (if-true (without_append a / 64 % 2 == 0) _ _ plain)

appended_run :
    generic_append_variable slot some_guid (65 ∷ []) (3 ∷ []) 0x47 (some (1 ∷ 2 ∷ [], 7))
    ≡ (ok tt, some (1 ∷ 2 ∷ 3 ∷ [], 7))
unfolding generic_append_variable append_to after_deletion without_append same_attributes is_enoent
appended_run = refl

-- Other attributes are refused, and nothing is deleted.
refused_run :
    generic_append_variable slot some_guid (65 ∷ []) (3 ∷ []) 3 (some (1 ∷ 2 ∷ [], 7))
    ≡ (err einval, some (1 ∷ 2 ∷ [], 7))
unfolding generic_append_variable append_to after_deletion without_append same_attributes is_enoent
refused_run = refl

generic_append_variable-Appended_example :
    Appended slot some_guid
      (65 ∷ [])
      (3 ∷ [])
      0x47
      (some (1 ∷ 2 ∷ [], 7))
      (some (1 ∷ 2 ∷ 3 ∷ [], 7))
generic_append_variable-Appended_example =
    generic_append_variable-Appended slot some_guid (65 ∷ []) (3 ∷ []) 0x47 (some (1 ∷ 2 ∷ [], 7))
      (some (1 ∷ 2 ∷ 3 ∷ [], 7)) slot_reads (omega arith) appended_run
