-- ===== src/Dispatch/Tests.antt =====
-- A back end with one variable, and the calls that go to it.
use efivar.Common.{
  ◌/◌, ◌%◌, ◌==◌, ◌++◌, ◌≢◌, if◌then◌else◌, if-true, ap, sym, ◌∙◌, true, arith, ℕ, ◌≡◌, refl,
  Option, none, some, List, [], ◌∷◌,
}
use efivar.Common.Outcome.{Outcome, ok, err, enoent, enosys}
use efivar.Guid.{Guid}
use efivar.Append.{
  without_append, same_attributes, is_enoent, after_deletion, append_to, generic_append_variable,
}
use efivar.Append.Appended.{Appended, no_append_flag, ReadsBack}
use efivar.Dispatch.{
  Operations, default_name, dispatch, dispatch_on, efi_set_variable, efi_get_variable,
  efi_chmod_variable, back_end, efi_append_variable, probe_failed, takes, same_name, libefivar_init,
}
use efivar.Dispatch.Chosen.{efi_append_variable-Appended}

abbrev Stored : Type 0
Stored = Option (List ℕ × ℕ)

abbrev read_stored : Stored → Outcome (List ℕ × ℕ)
read_stored none = err enoent
read_stored (some v) = ok v

abbrev held : Stored → List ℕ
held none = []
held (some v) = v.0

-- A write with EFI_VARIABLE_APPEND_WRITE goes behind what is there, and one of no data deletes, as on efivarfs.
abbrev stored : List ℕ → ℕ → Stored → Stored
stored [] attributes st = none
stored (b ∷ d) attributes st =
    if attributes / 64 % 2 == 0
    then some (b ∷ d, attributes)
    else some (held st ++ (b ∷ d), without_append attributes)

abbrev set : Guid → List ℕ → List ℕ → ℕ → ℕ → Stored → Outcome (Unit {0}) × Stored
set guid name d attributes mode st = (ok tt, stored d attributes st)

-- It can be set, read and deleted, and no more.
abbrev small : Operations Stored
small = record {
  name = 0x61 ∷ [];
  probe = λ st. 0;
  set_variable = some set;
  del_variable = some (λ guid name st. (ok tt, none));
  get_variable = some (λ guid name st. read_stored st);
  get_variable_attributes = none;
  get_variable_size = none;
  get_next_variable_name = none;
  append_variable = none;
  chmod_variable = none;
}

abbrev default_ops : Operations Stored
default_ops = record small {
  name = default_name;
  probe = λ st. 1;
  set_variable = none;
  del_variable = none;
  get_variable = none;
}

abbrev zero_guid : Guid
zero_guid = record { a = 0; b = 0; c = 0; d = 0; e0 = 0; e1 = 0; e2 = 0; e3 = 0; e4 = 0; e5 = 0 }

stored_reads : ReadsBack (back_end small) zero_guid (65 ∷ []) 0x47
unfolding back_end efi_set_variable efi_get_variable dispatch dispatch_on
stored_reads [] a s s1 pos same h = absurd (omega arith)
stored_reads (b ∷ d) a s s1 pos same h =
    let plain : (without_append a / 64 % 2 == 0) ≡ true = ground (arith, no_append_flag a) in
    ap (λ (r : Outcome (Unit {0}) × Stored). read_stored r.1) (sym h)
    ∙ ap read_stored (if-true (without_append a / 64 % 2 == 0) _ _ plain)

append_run :
    efi_append_variable small zero_guid (65 ∷ []) (3 ∷ []) 0x47 (some (1 ∷ [], 7))
    ≡ (ok tt, some (1 ∷ 3 ∷ [], 7))
unfolding efi_append_variable generic_append_variable append_to after_deletion without_append
    same_attributes is_enoent back_end
append_run = refl

efi_append_variable-Appended_example :
    (small.get_variable ≢ none)
    × (small.set_variable ≢ none)
    × Appended
        (back_end small)
        zero_guid
        (65 ∷ [])
        (3 ∷ [])
        0x47
        (some (1 ∷ [], 7))
        (some (1 ∷ 3 ∷ [], 7))
efi_append_variable-Appended_example =
    efi_append_variable-Appended small zero_guid (65 ∷ []) (3 ∷ []) 0x47 (some (1 ∷ [], 7))
      (some (1 ∷ 3 ∷ [], 7)) refl stored_reads (omega arith) append_run

-- A back end whose probe fails is passed over, and one without an operation says so.
default_chosen : libefivar_init (small ∷ default_ops ∷ []) none none ≡ some default_ops
unfolding libefivar_init takes probe_failed
default_chosen = refl

small_by_name : libefivar_init (small ∷ default_ops ∷ []) (some (0x61 ∷ [])) none ≡ some small
unfolding libefivar_init takes same_name
small_by_name = refl

no_chmod : efi_chmod_variable small zero_guid (65 ∷ []) 0x180 none ≡ (err enosys, none)
unfolding efi_chmod_variable dispatch_on
no_chmod = refl
