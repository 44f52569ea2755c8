-- ===== src/Dispatch/Chosen.antt =====
-- src/lib.c: the back end that `libefivar_init` chooses, and an append over a back end that has none.
use efivar.Common.{
  ◌≢◌, ◌<◌, length, ◌≡◌, refl, sym, ap, ◌∙◌, ℕ, inl, inr, true, false, Option, none, some, List, [],
  ◌∷◌, ◌++◌, All, Bool-cases, if-true, if-false,
}
use efivar.Common.Outcome.{Outcome, ok, err, enosys}
use efivar.Guid.{Guid}
use efivar.Append.{append_to, is_enoent, generic_append_variable}
use efivar.Append.Appended.{
  Appended, ReadsBack, err≢ok, generic_append_variable-Written, generic_append_variable-Appended,
}
use efivar.Dispatch.{
  Operations, dispatch, dispatch_on, efi_set_variable, efi_get_variable, back_end,
  efi_append_variable, takes, libefivar_init,
}

-- The first back end of the list that passes the test.
pub record IsFirst {S : Type 0} (ops_list : List (Operations S)) (ops_name : Option (List ℕ))
    (st : S) (ops : Operations S) : Type 0 where
  pub before : List (Operations S)
  pub after : List (Operations S)
  pub found : ops_list ≡ before ++ (ops ∷ after)
  pub refused : All (λ o. takes ops_name st o ≡ false) before
  pub taken : takes ops_name st ops ≡ true

-- `libefivar_init` leaves the first back end of its list that it takes, where there is one that it takes, such as the last one:
-- its name is taken whatever LIBEFIVAR_OPS says, and its probe succeeds.
libefivar_init-IsFirst :
    {S : Type 0} (ops_list : List (Operations S)) (last : Operations S) (ops_name : Option (List ℕ))
    (st : S)
    → takes ops_name st last ≡ true
    → (ops : Operations S) × (libefivar_init (ops_list ++ (last ∷ [])) ops_name st ≡ some ops)
      × IsFirst (ops_list ++ (last ∷ [])) ops_name st ops
unfolding libefivar_init
libefivar_init-IsFirst [] last ops_name st h = (
  last,
  if-true _ _ _ h,
  record { before = []; after = []; found = refl; refused = tt; taken = h },
)
libefivar_init-IsFirst (o ∷ os) last ops_name st h = elim (Bool-cases (takes ops_name st o)) [
  | inl e ↦ (
    o,
    if-true _ _ _ e,
    record { before = []; after = os ++ (last ∷ []); found = refl; refused = tt; taken = e },
  )
  | inr e ↦
      let (ops, chosen, first) = libefivar_init-IsFirst os last ops_name st h in
      (
        ops,
        if-false _ _ _ e ∙ chosen,
        record {
          before = o ∷ first.before;
          after = first.after;
          found = ap (◌∷◌ o) first.found;
          refused = (e, first.refused);
          taken = first.taken;
        },
      )
]

module _ {S : Type 0} (ops : Operations S) (guid : Guid) (name bytes : List ℕ) (attributes : ℕ)
    (st st1 : S) where
  -- Without the operation to read, the append fails, since ENOSYS is not ENOENT.
  no_get :
      ops.get_variable ≡ none
      → generic_append_variable (back_end ops) guid name bytes attributes st ≢ (ok tt, st1)
  unfolding generic_append_variable append_to is_enoent back_end efi_get_variable dispatch
  no_get e h =
      let failed : generic_append_variable (back_end ops) guid name bytes attributes st
          ≡ (err enosys, st) =
        ap
          (λ o.
            append_to (back_end ops) guid name bytes attributes st
              (dispatch o (λ op. op guid name st)))
          e in
      err≢ok enosys (ap (λ (q : Outcome (Unit {0}) × S). q.0) (sym failed ∙ h))

  set_missing :
      ops.set_variable ≡ none
      → (d : List ℕ) (a : ℕ) (s : S)
      → (back_end ops).efi_set_variable guid name d a s ≡ (err enosys, s)
  unfolding back_end efi_set_variable dispatch_on
  set_missing e d a s = ap (λ o. dispatch_on s o (λ op. op guid name d a 0x180 s)) e

  no_set :
      ops.set_variable ≡ none
      → generic_append_variable (back_end ops) guid name bytes attributes st ≢ (ok tt, st1)
  no_set e h =
      let (d, a, s, written) =
        generic_append_variable-Written (back_end ops) guid name st1 bytes attributes st h in
      err≢ok enosys (ap (λ (q : Outcome (Unit {0}) × S). q.0) (sym (set_missing e d a s) ∙ written))

  generic_there :
      ops.append_variable ≡ none
      → generic_append_variable (back_end ops) guid name bytes attributes st
        ≡ efi_append_variable ops guid name bytes attributes st
  unfolding efi_append_variable back_end
  generic_there e = rw (e, efi_append_variable) refl

  -- If a table has no operation to append, what `efi_set_variable` writes of the variable without EFI_VARIABLE_APPEND_WRITE, at least
  -- one byte of data with attributes that but for that flag are those of the call, `efi_get_variable` reads back as it was
  -- written, and an `efi_append_variable` of at least one byte succeeds: then the table has the operations to read and to write,
  -- and the variable reads as the old data followed by the new with its attributes, which but for that flag were those of the
  -- call, or, where it was missing, as the new data with those of the call; the attributes have lost the flag.
  pub efi_append_variable-Appended :
      ops.append_variable ≡ none
      → ReadsBack (back_end ops) guid name attributes
      → 0 < length bytes
      → efi_append_variable ops guid name bytes attributes st ≡ (ok tt, st1)
      → (ops.get_variable ≢ none)
        × (ops.set_variable ≢ none)
        × Appended (back_end ops) guid name bytes attributes st st1
  efi_append_variable-Appended no_append law pos h =
      let run = generic_there no_append ∙ h in
      (
        λ e. no_get e run,
        λ e. no_set e run,
        generic_append_variable-Appended (back_end ops) guid name bytes attributes st st1 law pos
            run,
      )
