-- ===== src/Dispatch.antt =====
-- src/lib.c: the calls that go to the back end chosen, and the choice of one. A call that the back end does not have is `none` in
-- the table. The error log is left out.
pub mod Chosen
mod Tests
use efivar.Common.{
  ℕ, ◌^◌, Bool, true, false, Option, none, some, List, [], ◌∷◌, ◌==◌, ◌||◌, ◌&&◌, leb, not,
  if◌then◌else◌,
}
use efivar.Common.Outcome.{Outcome, ok, err, fault, enosys, ◌>>=◌}
use efivar.Guid.{Guid}
use efivar.Append.{BackEnd, generic_append_variable}

-- `struct efi_var_operations` on a state of the back end. Reading does not change it; `probe` returns an `int`.
pub record Operations (S : Type 0) : Type 0 where
  pub name : List ℕ
  pub probe : S → ℕ
  pub set_variable : Option (Guid → List ℕ → List ℕ → ℕ → ℕ → S → Outcome (Unit {0}) × S)
  pub del_variable : Option (Guid → List ℕ → S → Outcome (Unit {0}) × S)
  pub get_variable : Option (Guid → List ℕ → S → Outcome (List ℕ × ℕ))
  pub get_variable_attributes : Option (Guid → List ℕ → S → Outcome ℕ)
  pub get_variable_size : Option (Guid → List ℕ → S → Outcome ℕ)
  pub get_next_variable_name :
      Option (Option Guid → Option (List ℕ) → S → Outcome (Option (Guid × List ℕ)) × S)
  pub append_variable : Option (Guid → List ℕ → List ℕ → ℕ → S → Outcome (Unit {0}) × S)
  pub chmod_variable : Option (Guid → List ℕ → ℕ → S → Outcome (Unit {0}) × S)

-- The test that every call begins with, on what the table has.
unfoldable pub dispatch : {A B : Type 0} → Option A → (A → Outcome B) → Outcome B
dispatch none call = err enosys
dispatch (some op) call = call op

-- The same of a call that changes the state.
unfoldable pub dispatch_on : {A B S : Type 0} → S → Option A → (A → Outcome B × S) → Outcome B × S
dispatch_on st none call = (err enosys, st)
dispatch_on st (some op) call = call op

module _ {S : Type 0} (ops : Operations S) where
  unfoldable pub efi_set_variable : Guid → List ℕ → List ℕ → ℕ → ℕ → S → Outcome (Unit {0}) × S
  unfolding dispatch_on
  efi_set_variable guid name bytes attributes mode st =
      dispatch_on st ops.set_variable (λ op. op guid name bytes attributes mode st)

  -- The entry points of older versions, with the mode 0600.
  unfoldable pub efi_set_variable_0 : Guid → List ℕ → List ℕ → ℕ → S → Outcome (Unit {0}) × S
  unfolding dispatch_on
  efi_set_variable_0 guid name bytes attributes st =
      dispatch_on st ops.set_variable (λ op. op guid name bytes attributes 0x180 st)

  unfoldable pub efi_set_variable_variadic : Guid → List ℕ → List ℕ → ℕ → S → Outcome (Unit {0}) × S
  unfolding dispatch_on
  efi_set_variable_variadic guid name bytes attributes st =
      dispatch_on st ops.set_variable (λ op. op guid name bytes attributes 0x180 st)

  unfoldable pub efi_del_variable : Guid → List ℕ → S → Outcome (Unit {0}) × S
  unfolding dispatch_on
  efi_del_variable guid name st = dispatch_on st ops.del_variable (λ op. op guid name st)

  unfoldable pub efi_get_variable : Guid → List ℕ → S → Outcome (List ℕ × ℕ)
  unfolding dispatch
  efi_get_variable guid name st = dispatch ops.get_variable (λ op. op guid name st)

  unfoldable pub efi_get_variable_attributes : Guid → List ℕ → S → Outcome ℕ
  unfolding dispatch
  efi_get_variable_attributes guid name st =
      dispatch ops.get_variable_attributes (λ op. op guid name st)

  unfoldable pub efi_get_variable_exists : Guid → List ℕ → S → Outcome ℕ
  unfolding efi_get_variable_attributes
  efi_get_variable_exists guid name st = efi_get_variable_attributes guid name st

  unfoldable pub efi_get_variable_size : Guid → List ℕ → S → Outcome ℕ
  unfolding dispatch
  efi_get_variable_size guid name st = dispatch ops.get_variable_size (λ op. op guid name st)

  unfoldable pub efi_get_next_variable_name :
      Option Guid → Option (List ℕ) → S → Outcome (Option (Guid × List ℕ)) × S
  unfolding dispatch_on
  efi_get_next_variable_name guid name st =
      dispatch_on st ops.get_next_variable_name (λ op. op guid name st)

  unfoldable pub efi_chmod_variable : Guid → List ℕ → ℕ → S → Outcome (Unit {0}) × S
  unfolding dispatch_on
  efi_chmod_variable guid name mode st =
      dispatch_on st ops.chmod_variable (λ op. op guid name mode st)

  -- The calls that `generic_append_variable` makes, with its mode 0600.
  unfoldable pub back_end : BackEnd S
  unfolding efi_get_variable efi_del_variable efi_set_variable
  back_end = record {
    efi_get_variable = efi_get_variable;
    efi_del_variable = efi_del_variable;
    efi_set_variable =
        λ guid name bytes attributes st. efi_set_variable guid name bytes attributes 0x180 st;
  }

  unfoldable pub efi_append_variable : Guid → List ℕ → List ℕ → ℕ → S → Outcome (Unit {0}) × S
  efi_append_variable guid name bytes attributes st = elim (ops.append_variable) [
    | none ↦ generic_append_variable back_end guid name bytes attributes st
    | some op ↦ op guid name bytes attributes st
  ]

-- `rc <= 0` of an `int`
unfoldable pub probe_failed : ℕ → Bool
probe_failed rc = rc == 0 || leb (2 ^ 31) rc

unfoldable pub same_name : List ℕ → List ℕ → Bool
same_name [] [] = true
same_name [] (y ∷ b) = false
same_name (x ∷ a) [] = false
same_name (x ∷ a) (y ∷ b) = x == y && same_name a b

-- "default"
abbrev pub default_name : List ℕ
default_name = 0x64 ∷ 0x65 ∷ 0x66 ∷ 0x61 ∷ 0x75 ∷ 0x6c ∷ 0x74 ∷ []

-- Whether `libefivar_init` takes a back end, by the name of LIBEFIVAR_OPS where that is set.
unfoldable pub takes : {S : Type 0} → Option (List ℕ) → S → Operations S → Bool
unfolding probe_failed same_name
takes none st ops = not (probe_failed (ops.probe st))
takes (some ops_name) st ops = same_name ops.name ops_name || same_name ops.name default_name

-- The loop of `libefivar_init`; `none` leaves the pointer NULL. Where LIBEFIVAR_OPS asks for help, the program ends before it.
unfoldable pub libefivar_init :
    {S : Type 0} → List (Operations S) → Option (List ℕ) → S → Option (Operations S)
unfolding takes
libefivar_init [] ops_name st = none
libefivar_init (ops ∷ ops_list) ops_name st =
    let rest = libefivar_init ops_list ops_name st in
    if takes ops_name st ops then some ops else rest
