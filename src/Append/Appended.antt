-- ===== src/Append/Appended.antt =====
-- src/generics.h: what an append that succeeds leaves.
use efivar.Common.{
  ◌/◌, ◌%◌, if-true, if-false, ==_iff, arith, length, length-append, ◌<◌, ℕ, ◌≡◌, ◌≢◌, refl, sym,
  ap, ◌∙◌, ◌⊎◌, inl, inr, true, Bool-cases, not, List, ◌++◌,
}
use efivar.Common.Bits.{bit_and_step}
use efivar.Common.Outcome.{
  Outcome, ok, err, fault, Errno, einval, enoent, enospc, eoverflow, enomem, enosys, eperm, unset,
}
use efivar.Guid.{Guid}
use efivar.Append.{
  BackEnd, without_append, same_attributes, is_enoent, after_deletion, append_to,
  generic_append_variable,
}

is_enoent-eq : (e : Errno) → is_enoent e ≡ true → e ≡ enoent
unfolding is_enoent
is_enoent-eq enoent h = refl
is_enoent-eq einval h = cc
is_enoent-eq enospc h = cc
is_enoent-eq eoverflow h = cc
is_enoent-eq enomem h = cc
is_enoent-eq enosys h = cc
is_enoent-eq eperm h = cc
is_enoent-eq unset h = cc

-- The flag is bit 6.
pub no_append_flag : (a : ℕ) → without_append a / 64 % 2 ≡ 0
unfolding without_append
no_append_flag a = omega (
  arith,
  bit_and_step a 4294967231,
  bit_and_step (a / 2) 2147483615,
  bit_and_step (a / 2 / 2) 1073741807,
  bit_and_step (a / 2 / 2 / 2) 536870903,
  bit_and_step (a / 2 / 2 / 2 / 2) 268435451,
  bit_and_step (a / 2 / 2 / 2 / 2 / 2) 134217725,
  bit_and_step (a / 2 / 2 / 2 / 2 / 2 / 2) 67108862,
)

same_attributes_self : (a : ℕ) → same_attributes a a ≡ true
unfolding same_attributes
same_attributes_self a = (==_iff _ _).1 refl

pub err≢ok : (e : Errno) → ◌≢◌ {A = Outcome (Unit {0})} (err e) (ok tt)
err≢ok e h = cc

fault≢ok : ◌≢◌ {A = Outcome (Unit {0})} fault (ok tt)
fault≢ok h = cc

module _ {S : Type 0} (ops : BackEnd S) (guid : Guid) (name : List ℕ) where
  -- What the state after an append says of the variable: the data are behind the old ones, if there were any.
  abbrev pub Appended : List ℕ → ℕ → S → S → Type 0
  Appended new_data new_attributes st st1 =
      ((old : List ℕ) × (attributes : ℕ) × (ops.efi_get_variable guid name st
          ≡ ok (old, attributes))
        × (same_attributes attributes new_attributes ≡ true)
        × (ops.efi_get_variable guid name st1 ≡ ok (old ++ new_data, without_append attributes)))
      ⊎ ((ops.efi_get_variable guid name st ≡ err enoent)
          × (ops.efi_get_variable guid name st1 ≡ ok (new_data, without_append new_attributes)))

  -- What is written of the variable without EFI_VARIABLE_APPEND_WRITE, with at least one byte of data and attributes that but for
  -- that flag are those given, reads back as it was written.
  abbrev pub ReadsBack : ℕ → Type 0
  ReadsBack new_attributes =
      (d : List ℕ) (a : ℕ) (s s1 : S)
      → 0 < length d
      → same_attributes a new_attributes ≡ true
      → ops.efi_set_variable guid name d (without_append a) s ≡ (ok tt, s1)
      → ops.efi_get_variable guid name s1 ≡ ok (d, without_append a)

  after_deletion-set :
      (new_attributes : ℕ) (d : List ℕ) (a : ℕ) (p : Outcome (Unit {0}) × S) (st1 : S)
      → ReadsBack new_attributes
      → 0 < length d
      → same_attributes a new_attributes ≡ true
      → after_deletion ops guid name d (without_append a) p ≡ (ok tt, st1)
      → ops.efi_get_variable guid name st1 ≡ ok (d, without_append a)
  unfolding after_deletion
  after_deletion-set new d a (ok _, st) st1 law pos same h = law d a st st1 pos same h
  after_deletion-set new d a (err e, st) st1 law pos same h =
      absurd (err≢ok _ (ap (λ (q : Outcome (Unit {0}) × S). q.0) h))
  after_deletion-set new d a (fault, st) st1 law pos same h =
      absurd (fault≢ok (ap (λ (q : Outcome (Unit {0}) × S). q.0) h))

  append_to-Appended :
      (new_data : List ℕ) (new_attributes : ℕ) (st st1 : S) (found : Outcome (List ℕ × ℕ))
      → ReadsBack new_attributes
      → 0 < length new_data
      → ops.efi_get_variable guid name st ≡ found
      → append_to ops guid name new_data new_attributes st found ≡ (ok tt, st1)
      → Appended new_data new_attributes st st1
  unfolding append_to
  append_to-Appended new_data new_attributes st st1 fault law pos e h =
      absurd (fault≢ok (ap (λ (q : Outcome (Unit {0}) × S). q.0) h))
  append_to-Appended new_data new_attributes st st1 (err w) law pos e h =
      elim (Bool-cases (is_enoent w)) [
        | inl is_so ↦ inr (
          e ∙ ap err (is_enoent-eq w is_so),
          law new_data new_attributes st st1 pos (same_attributes_self new_attributes)
              (sym (if-true _ _ _ is_so) ∙ h),
        )
        | inr is_not ↦
            absurd (
              err≢ok _ (ap (λ (q : Outcome (Unit {0}) × S). q.0) (sym (if-false _ _ _ is_not) ∙ h)))
      ]
  append_to-Appended new_data new_attributes st st1 (ok (old, attributes)) law pos e h =
      elim (Bool-cases (same_attributes attributes new_attributes)) [
        | inl is_so ↦ inl (
          old,
          attributes,
          e,
          is_so,
          after_deletion-set new_attributes (old ++ new_data) attributes _ st1 law
              (omega (arith, pos, length-append old new_data)) is_so
              (sym (if-false _ _ _ (ap not is_so)) ∙ h),
        )
        | inr is_not ↦ absurd (
            err≢ok _
              (ap (λ (q : Outcome (Unit {0}) × S). q.0) (sym (if-true _ _ _ (ap not is_not)) ∙ h)))
      ]

-- An append that succeeded has written the variable.
module _ {S : Type 0} (ops : BackEnd S) (guid : Guid) (name : List ℕ) (st1 : S) where
  abbrev pub Written : Type 0
  Written = (d : List ℕ) × (a : ℕ) × (s : S) × (ops.efi_set_variable guid name d a s ≡ (ok tt, st1))

  after_deletion-Written :
      (d : List ℕ) (a : ℕ) (p : Outcome (Unit {0}) × S)
      → after_deletion ops guid name d a p ≡ (ok tt, st1)
      → Written
  unfolding after_deletion
  after_deletion-Written d a (ok _, st) h = (d, a, st, h)
  after_deletion-Written d a (err e, st) h =
      absurd (err≢ok _ (ap (λ (q : Outcome (Unit {0}) × S). q.0) h))
  after_deletion-Written d a (fault, st) h =
      absurd (fault≢ok (ap (λ (q : Outcome (Unit {0}) × S). q.0) h))

  append_to-Written :
      (new_data : List ℕ) (new_attributes : ℕ) (st : S) (found : Outcome (List ℕ × ℕ))
      → append_to ops guid name new_data new_attributes st found ≡ (ok tt, st1)
      → Written
  unfolding append_to
  append_to-Written new_data new_attributes st fault h =
      absurd (fault≢ok (ap (λ (q : Outcome (Unit {0}) × S). q.0) h))
  append_to-Written new_data new_attributes st (err w) h = elim (Bool-cases (is_enoent w)) [
    | inl is_so ↦ (new_data, without_append new_attributes, st, sym (if-true _ _ _ is_so) ∙ h)
    | inr is_not ↦
        absurd
          (err≢ok _ (ap (λ (q : Outcome (Unit {0}) × S). q.0) (sym (if-false _ _ _ is_not) ∙ h)))
  ]
  append_to-Written new_data new_attributes st (ok (old, attributes)) h =
      elim (Bool-cases (same_attributes attributes new_attributes)) [
        | inl is_so ↦ after_deletion-Written _ _ _ (sym (if-false _ _ _ (ap not is_so)) ∙ h)
        | inr is_not ↦ absurd (
            err≢ok _
              (ap (λ (q : Outcome (Unit {0}) × S). q.0) (sym (if-true _ _ _ (ap not is_not)) ∙ h)))
      ]

  pub generic_append_variable-Written :
      (new_data : List ℕ) (new_attributes : ℕ) (st : S)
      → generic_append_variable ops guid name new_data new_attributes st ≡ (ok tt, st1)
      → Written
  unfolding generic_append_variable
  generic_append_variable-Written new_data new_attributes st h =
      append_to-Written new_data new_attributes st (ops.efi_get_variable guid name st) h

-- If what is written of the variable without EFI_VARIABLE_APPEND_WRITE, at least one byte of data with attributes that but for that
-- flag are those of the call, reads back as it was written, then after a `generic_append_variable` of at least one byte that
-- succeeded the variable is read in one of two ways: if it was there before, its attributes were those of the call, apart from that
-- flag, and it now holds the old data followed by the new, with its attributes without the flag; if it was missing, it now holds
-- the new data with the attributes of the call without the flag.
pub generic_append_variable-Appended :
    {S : Type 0} (ops : BackEnd S) (guid : Guid) (name new_data : List ℕ) (new_attributes : ℕ)
    (st st1 : S)
    → ReadsBack ops guid name new_attributes
    → 0 < length new_data
    → generic_append_variable ops guid name new_data new_attributes st ≡ (ok tt, st1)
    → Appended ops guid name new_data new_attributes st st1
unfolding generic_append_variable
generic_append_variable-Appended ops guid name new_data new_attributes st st1 law pos h =
    append_to-Appended ops guid name new_data new_attributes st st1
      (ops.efi_get_variable guid name st) law pos refl h
