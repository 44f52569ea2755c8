-- ===== src/SecDb/Added.antt =====
-- src/secdb.c: a database after `efi_secdb_add_entry_or_secdb`.
use Prim.Native.Nat.{Ordering}
use mathlib.Core.List.{Permᴰ, map-append}
use efivar.Common.{
  ℕ, ◌+◌, ◌^◌, ◌<◌, ◌≡◌, refl, sym, ap, ◌∙◌, subst, Bool, true, List, ◌∷◌, ◌++◌, length, All,
  All-append, arith, map, inl, inr, ◌⊎◌, append_assoc, length-append,
}
use efivar.Common.Outcome.{ok}
use efivar.EslIter.Layout.{Signature}
use efivar.SecDb.{
  Secdb, type_max, alg_of, efi_secdb_algs, secdb_entry_has_owner_from_type, has_flag, flag_sort,
  flag_sort_descending,
}
use efivar.SecDb.Edit.{
  Place, place_for, sort_entries, sort_lists, add_at, efi_secdb_add_entry_or_secdb,
}
use efivar.SecDb.Valid.{IsSublist, signatures, signatures-append, Sorts}
use efivar.SecDb.Places.{Chosen, Suits, place_for-Chosen}
use efivar.SecDb.Add.{
  Among, has_contents-cases, longer, secdb_add_entry_data-longer, longer-IsSublist, kept-IsSublist,
  signatures-longer, add_at-longer,
}

pub has_owner-known : (type : ℕ) → type < type_max → secdb_entry_has_owner_from_type type ≡ ok true
unfolding secdb_entry_has_owner_from_type alg_of efi_secdb_algs
has_owner-known type h = ground arith

-- A signature of that type and data is there.
abbrev pub IsThere : ℕ → List ℕ → List (ℕ × Signature) → Type 0
IsThere algorithm contents sigs =
    (pre : List (ℕ × Signature)) × (s : Signature) × (post : List (ℕ × Signature)) × (sigs
      ≡ pre ++ ((algorithm, s) ∷ post))
    × (s.contents ≡ contents)

IsThere-Among :
    (p : Place) (contents : List ℕ)
    → Among contents p.list.entries
    → IsThere (p.list.algorithm) contents (signatures (p.before ++ (p.list ∷ p.after)))
unfolding signatures
IsThere-Among p contents (pre, s, post, cut, same) =
    let f : Signature → ℕ × Signature = λ t. (p.list.algorithm, t) in
    (
      signatures p.before ++ map f pre,
      s,
      map f post ++ signatures p.after,
      signatures-append p.before (p.list ∷ p.after)
          ∙ ap (λ (es : List Signature). signatures p.before ++ (map f es ++ signatures p.after))
              cut
          ∙ ap (λ (t : List (ℕ × Signature)). signatures p.before ++ (t ++ signatures p.after))
              (map-append f pre (s ∷ post))
          ∙ ap (λ (t : List (ℕ × Signature)). signatures p.before ++ t)
              (append_assoc (map f pre) (map f (s ∷ post)) (signatures p.after))
          ∙ sym (
              append_assoc (signatures p.before) (map f pre)
                (f s ∷ (map f post ++ signatures p.after))),
      same,
    )

some-Among : (contents : List ℕ) (ss : List Signature) → Among contents ss → 0 < length ss
some-Among contents ss (pre, s, post, cut, same) =
    omega (arith, ap length cut, length-append pre (s ∷ post))

-- What an addition leaves: one signature more, or the same where the data are there.
abbrev pub Grown : List (ℕ × Signature) → ℕ → List ℕ → List ℕ → List (ℕ × Signature) → Type 0
Grown old algorithm owner contents new =
    Permᴰ new ((algorithm, record { owner = owner; contents = contents }) ∷ old)
    ⊎ ((new ≡ old) × IsThere algorithm contents old)

-- `efi_secdb_add_entry_or_secdb`, for a database whose lists are well formed with space for one entry more, a known type, an
-- owner of 16 bytes and data of the size of that type (for a certificate: where no list of certificates has entries that are 16
-- bytes longer), whatever `qsort` does that leaves what it sorts: it succeeds, the lists stay well formed, and the signatures are
-- those there were and the new one, in some order, or they are as they were and one of that type with those data was there.
pub efi_secdb_add_entry_or_secdb-Grown :
    (qsort : (A : Type 0) → (A → A → Ordering) → List A → List A) (db : Secdb)
    (owner contents : List ℕ) (algorithm spare : ℕ) (force : Bool)
    → Sorts qsort
    → algorithm < type_max
    → length owner ≡ 16
    → 0 < length contents
    → 44 + length contents + spare < 2 ^ 32
    → Suits db.lists algorithm (length contents)
    → All (IsSublist (44 + length contents + spare)) db.lists
    → (db' : Secdb) × (efi_secdb_add_entry_or_secdb qsort db owner algorithm contents force
        ≡ ok db')
      × All (IsSublist spare) db'.lists
      × Grown (signatures db.lists) algorithm owner contents (signatures db'.lists)
unfolding efi_secdb_add_entry_or_secdb add_at
efi_secdb_add_entry_or_secdb-Grown qsort db owner contents algorithm spare force sorts known
      owner_size pos small suits valid =
    let p = place_for db algorithm (length contents + 16) force in
    let c : Chosen spare db.lists algorithm (length contents) p =
      place_for-Chosen db algorithm (length contents) spare valid known suits small force in
    elim (has_contents-cases contents p.list.entries c.filled) [
      | inl e ↦
          let l = longer spare db.lists algorithm owner contents p pos owner_size known c in
          let (valid', grown) =
            add_at-longer qsort sorts spare p
              (longer spare db.lists algorithm owner contents p pos owner_size known c)
              (length contents) (has_flag p.list.flags flag_sort)
              (has_flag p.list.flags flag_sort_descending) c.before_valid c.after_valid
              (longer-IsSublist spare db.lists algorithm owner contents p pos owner_size known c) in
          (
            record db {
              lists =
                  sort_lists qsort (has_flag p.list.flags flag_sort)
                    (has_flag p.list.flags flag_sort_descending)
                    (p.before ++ (sort_entries qsort l (length contents) ∷ p.after));
            },
            rw (has_owner-known algorithm known) (
                rw e (
                  rw
                    (secdb_add_entry_data-longer spare db.lists algorithm owner contents p pos
                      owner_size known c)
                    refl)),
            valid',
            inl (
                Permᴰ.trans grown (
                  signatures-longer spare db.lists algorithm owner contents p pos owner_size known
                    c)),
          )
      | inr (e, among) ↦ (
        record db { lists = p.before ++ (p.list ∷ p.after) },
        rw (has_owner-known algorithm known) (rw e refl),
        All-append (IsSublist spare) p.before (p.list ∷ p.after) c.before_valid (
          kept-IsSublist spare db.lists algorithm owner contents p pos owner_size known c
              (some-Among contents p.list.entries among),
          c.after_valid,
        ),
        inr (
          c.all_there,
          subst (IsThere algorithm contents) c.all_there (
              subst (λ a. IsThere a contents (signatures (p.before ++ (p.list ∷ p.after))))
                c.same_type (IsThere-Among p contents among)),
        ),
      )
    ]
