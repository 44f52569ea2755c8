-- ===== src/SecDb/Parse.antt =====
-- src/secdb.c: `efi_secdb_parse`, which adds the entries of signature lists to a database. `alg_guid` gives the GUIDs of the types,
-- and `qsort` stands for `qsort_r`.
use Prim.Native.Nat.{Ordering}
use efivar.Common.{
  ℕ, zero, suc, ◌+◌, ◌-◌, Bool, true, false, not, ◌&&◌, ◌||◌, Option, none, some, List, length, leb,
  ◌==◌, if◌then◌else◌,
}
use efivar.Common.Words.{u32}
use efivar.Common.Outcome.{Outcome, ok, err, fault, einval, eoverflow, ◌>>=◌, ◌>>>=◌, guard}
use efivar.Common.Memory.{load, load_le}
use efivar.EslIter.{
  ListIter, EslIter, Next, iter_end, iter_next, esl_iter_new, esl_iter_next, esl_list_sig_size,
  esl_list_signature_list_size,
}
use efivar.SecDb.{Secdb, type_max, has_flag, flag_sort, flag_sort_descending, efi_secdb_new}
use efivar.SecDb.Edit.{equal_bytes, sort_lists, efi_secdb_add_entry_or_secdb}

-- What `esl_list_iter_next` leaves of the iterator where it fails with EOVERFLOW: it may have moved to the list that is too long.
unfoldable pub list_overflowed : ListIter → Outcome ListIter
list_overflowed iter = elim iter.esl [
  | none ↦ ok (record iter { esl = some 0 })
  | some esl ↦ load_le (esl + 16) 4 iter.buf >>= λ size.
      if leb size (iter.len - iter.offset)
      then ok (record iter { offset = iter.offset + size; esl = some (iter.offset + size) })
      else ok iter
]

-- The same of `esl_iter_next`.
unfoldable pub overflowed : EslIter → Outcome EslIter
unfolding list_overflowed
overflowed it0 =
    let it = record it0 { line = it0.line + 1; i = u32 (it0.i + 1) } in
    if it.i == it.nmemb
    then (list_overflowed it.iter >>= λ iter. ok (record it { i = 0; iter = iter }))
    else ok it

-- The second call, which corrects sizes. Where no entry was found before, the offset of the entry is that of NULL, beyond any
-- buffer; here it is 0, where no entry is.
unfoldable pub second_try : EslIter → Outcome Next
second_try it =
    if it.esd == 0 && not (u32 (it.i + 1) == it.nmemb)
    then (esl_list_sig_size it.iter >>= λ ss.
        esl_list_signature_list_size it.iter >>= λ sls. err eoverflow)
    else esl_iter_next true it

-- The next entry, and whether a size was corrected.
unfoldable pub next_corrected : EslIter → Outcome (Next × Bool)
unfolding overflowed second_try
next_corrected it = elim (esl_iter_next false it) [
  | ok n ↦ ok (n, false)
  | err eoverflow ↦ overflowed it >>= λ it1. second_try it1 >>= λ n. ok (n, true)
  | err e ↦ err e
  | fault ↦ fault
]

-- The first entry of a new database sets a field of its head that nothing reads.
unfoldable pub note_size : Secdb → Bool → ℕ → Secdb
note_size db new_secdb sigsz =
    if new_secdb then record db { top = record (db.top) { sigsz = u32 sigsz } } else db

module _ (alg_guid : ℕ → List ℕ) where
  -- The loop of `secdb_entry_type_from_guid` from a type on; -1 is `none`.
  unfoldable pub find_type : ℕ → ℕ → List ℕ → Option ℕ
  unfolding equal_bytes
  find_type zero type guid = none
  find_type (suc more) type guid =
      let rest = find_type more (type + 1) guid in
      if equal_bytes guid (alg_guid type) then some type else rest

  unfoldable pub secdb_entry_type_from_guid : List ℕ → Option ℕ
  unfolding find_type
  secdb_entry_type_from_guid guid = find_type type_max 0 guid

  module _ (qsort : (A : Type 0) → (A → A → Ordering) → List A → List A) where
    -- The result of adding the entry is not looked at.
    unfoldable pub add_bytes : Secdb → List ℕ → ℕ → Bool → List ℕ → Outcome Secdb
    add_bytes db owner algorithm force bytes =
        elim (efi_secdb_add_entry_or_secdb qsort db owner algorithm bytes force) [
          | ok db' ↦ ok db'
          | err e ↦ ok db
          | fault ↦ fault
        ]

    -- For an unknown type nothing is read.
    unfoldable pub add_found : Secdb → List ℕ → List ℕ → Outcome (List ℕ) → Bool → Outcome Secdb
    unfolding secdb_entry_type_from_guid add_bytes
    add_found db type owner contents force = elim (secdb_entry_type_from_guid type) [
      | none ↦ ok db
      | some algorithm ↦ contents >>= λ bytes. add_bytes db owner algorithm force bytes
    ]

    -- The loop of `efi_secdb_parse`, at most `turns` times.
    unfoldable pub parse_loop : ℕ → Secdb → EslIter → Bool → Bool → Option (Outcome Secdb)
    unfolding next_corrected add_found note_size
    parse_loop zero db it new_secdb sort = none
    parse_loop (suc turns) db it new_secdb sort = some (next_corrected it) >>>= λ (n, corrected).
        elim n [
          | iter_end last ↦ some (ok db)
          | iter_next next e ↦
              some (
                add_found (note_size db new_secdb e.len) e.type e.owner
                  (load e.at e.len next.iter.buf)
                  ((corrected || (e.new_list && not sort)) && not new_secdb))
              >>>= λ db'. parse_loop turns db' next false sort
        ]

    unfoldable pub efi_secdb_parse : ℕ → List ℕ → Option Secdb → Option (Outcome Secdb)
    unfolding parse_loop
    efi_secdb_parse turns buf secdbp =
        let new_secdb = elim secdbp as (λ _. Bool) [ none ↦ true | some _ ↦ false ] in
        let db = elim secdbp as (λ _. Secdb) [ none ↦ efi_secdb_new | some db0 ↦ db0 ] in
        let sort = has_flag db.top.flags flag_sort in
        let descending = has_flag db.top.flags flag_sort_descending in
        some (guard (not (length buf == 0)) einval) >>>= λ _.
        some (esl_iter_new buf (length buf)) >>>= λ it.
        parse_loop turns db it new_secdb sort >>>= λ parsed.
        some (ok (record parsed { lists = sort_lists qsort sort descending parsed.lists }))
