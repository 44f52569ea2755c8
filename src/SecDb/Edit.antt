-- ===== src/SecDb/Edit.antt =====
-- src/secdb.c: the search for a list, adding an entry and deleting one. `qsort` stands for `qsort_r` of the C library.
use Prim.Native.Nat.{Ordering}
use efivar.Common.{
  ℕ, ◌+◌, Bool, true, false, ◌&&◌, ◌||◌, not, Option, none, some, List, [], ◌∷◌, ◌++◌, length, take,
  ◌==◌, if◌then◌else◌,
}
use efivar.Common.Words.{u32}
use efivar.Common.Outcome.{Outcome, ok, err, einval, enoent, ◌>>=◌, guard}
use efivar.Common.Memory.{load}
use efivar.Guid.{efi_guid_cmp}
use efivar.Guid.Layout.{guid_of_bytes}
use efivar.Variable.Import.{minus64}
use efivar.EslIter.{guid_size}
use efivar.EslIter.Layout.{Signature}
use efivar.SecDb.{
  Sublist, Secdb, type_max, type_x509_cert, secdb_entry_has_owner_from_type,
  secdb_entry_size_from_type, secdb_header_size_from_type, secdb_entry_size, has_flag, flag_sort,
  flag_sort_data, flag_sort_descending, zeroed,
}
use efivar.SecDb.Compare.{
  secdb_cmp, secdb_cmp_descending, secdb_entry_cmp, secdb_entry_cmp_descending,
}

-- `memcmp(a, b, n) == 0` of buffers that have `n` bytes.
unfoldable pub equal_bytes : List ℕ → List ℕ → Bool
equal_bytes [] [] = true
equal_bytes [] (y ∷ b) = false
equal_bytes (x ∷ a) [] = false
equal_bytes (x ∷ a) (y ∷ b) = x == y && equal_bytes a b

-- The test of `find_secdb_entry` on a list.
unfoldable pub is_candidate : ℕ → ℕ → Sublist → Bool
is_candidate algorithm sigsz l =
    l.listsz == 0 || (l.algorithm == type_max || (l.algorithm == algorithm && l.sigsz == sigsz))

-- A list with those in front of it and behind it.
pub record Place : Type 0 where
  pub before : List Sublist
  pub list : Sublist
  pub after : List Sublist

-- The last list that passes the test: the search goes from the end.
unfoldable pub find_prev : (Sublist → Bool) → List Sublist → Option Place
find_prev test [] = none
find_prev test (l ∷ ls) = elim (find_prev test ls) [
  | some p ↦ some (record p { before = l ∷ p.before })
  | none ↦ if test l then some (record { before = []; list = l; after = ls }) else none
]

-- `sigsz` of the functions below: that of the type, and for a certificate the size given.
unfoldable pub size_for : ℕ → ℕ → ℕ
unfolding secdb_entry_size_from_type
size_for algorithm given =
    if algorithm == type_x509_cert then given else secdb_entry_size_from_type algorithm

unfoldable pub find_secdb_entry : Secdb → ℕ → ℕ → Option Place
unfolding is_candidate find_prev size_for
find_secdb_entry db algorithm datasz =
    find_prev (is_candidate algorithm (size_for algorithm (datasz + guid_size))) db.lists

-- `alloc_secdb_entry`: the new list, behind all others.
unfoldable pub alloc_secdb_entry : Secdb → ℕ → ℕ → Place
unfolding size_for secdb_header_size_from_type
alloc_secdb_entry db algorithm datasz = record {
  before = db.lists;
  list = record zeroed {
    algorithm = algorithm;
    hdrsz = secdb_header_size_from_type algorithm;
    sigsz = u32 (size_for algorithm datasz);
    flags = db.top.flags;
  };
  after = [];
}

unfoldable pub retype : ℕ → ℕ → Place → Place
retype algorithm sigsz p = record p {
  list = record (p.list) { algorithm = algorithm; sigsz = u32 sigsz };
}

unfoldable pub find_or_alloc_secdb_entry : Secdb → ℕ → ℕ → Place
unfolding find_secdb_entry alloc_secdb_entry retype size_for
find_or_alloc_secdb_entry db algorithm datasz =
    retype algorithm (size_for algorithm datasz) (elim (find_secdb_entry db algorithm datasz) [
      | some p ↦ p
      | none ↦ alloc_secdb_entry db algorithm datasz
    ])

-- The first branches of `efi_secdb_add_entry_or_secdb`.
unfoldable pub place_for : Secdb → ℕ → ℕ → Bool → Place
unfolding alloc_secdb_entry retype find_or_alloc_secdb_entry
place_for db algorithm sigsz force =
    if force
    then retype algorithm sigsz (alloc_secdb_entry db algorithm sigsz)
    else find_or_alloc_secdb_entry db algorithm sigsz

-- The loop that looks for an entry with the same data. It reads as many bytes of each entry as there are new.
unfoldable pub has_contents : List ℕ → List Signature → Outcome Bool
unfolding equal_bytes
has_contents contents [] = ok false
has_contents contents (s ∷ ss) = load 0 (length contents) s.contents >>= λ old.
    if equal_bytes contents old then ok true else has_contents contents ss

-- `secdb_add_entry_data`, whose result the caller does not look at. The size is a `uint32_t` there.
unfoldable pub secdb_add_entry_data : Sublist → List ℕ → List ℕ → Sublist
unfolding secdb_entry_size
secdb_add_entry_data l owner contents =
    let datasz = u32 (length contents) in
    let nsigs = l.nsigs + 1 in
    let sigsz =
      if nsigs == 1 && (l.algorithm == type_x509_cert && l.sigsz == guid_size)
      then u32 (l.sigsz + datasz)
      else l.sigsz in
    let added = record l {
      nsigs = nsigs;
      sigsz = sigsz;
      entries = l.entries ++ (record { owner = owner; contents = take datasz contents } ∷ []);
    } in
    if datasz == 0 then l else record added { listsz = u32 (secdb_entry_size added) }

-- `list_sort` does nothing for want of memory, or sorts by `qsort_r`.
module _ (qsort : (A : Type 0) → (A → A → Ordering) → List A → List A) where
  unfoldable pub sort_entries : Sublist → ℕ → Sublist
  unfolding has_flag secdb_entry_cmp_descending
  sort_entries l datasz =
      if has_flag l.flags flag_sort_data && not (l.sigsz == 0)
      then record l {
        entries =
            qsort Signature
              (if has_flag l.flags flag_sort_descending
                then secdb_entry_cmp_descending datasz
                else secdb_entry_cmp datasz)
              l.entries;
      }
      else l

  unfoldable pub sort_lists : Bool → Bool → List Sublist → List Sublist
  sort_lists sort descending ls =
      if sort then qsort Sublist (if descending then secdb_cmp_descending else secdb_cmp) ls else ls

  -- What is done with the list chosen.
  unfoldable pub add_at : Secdb → Place → List ℕ → List ℕ → Outcome Secdb
  unfolding has_contents secdb_add_entry_data sort_entries sort_lists has_flag
  add_at db p owner contents = has_contents contents (p.list.entries) >>= λ there.
      if there
      then ok (record db { lists = p.before ++ (p.list ∷ p.after) })
      else ok (record db {
        lists =
            sort_lists (has_flag p.list.flags flag_sort)
              (has_flag p.list.flags flag_sort_descending)
              (p.before
                ++ (sort_entries (secdb_add_entry_data p.list owner contents) (length contents)
                    ∷ p.after));
      })

  unfoldable pub efi_secdb_add_entry_or_secdb : Secdb → List ℕ → ℕ → List ℕ → Bool → Outcome Secdb
  unfolding secdb_entry_has_owner_from_type place_for add_at
  efi_secdb_add_entry_or_secdb db owner algorithm contents force =
      secdb_entry_has_owner_from_type algorithm >>= λ has_owner.
      let sigsz = length contents + (if has_owner then guid_size else 0) in
      add_at db (place_for db algorithm sigsz force) owner contents

  unfoldable pub efi_secdb_add_entry : Secdb → List ℕ → ℕ → List ℕ → Outcome Secdb
  unfolding efi_secdb_add_entry_or_secdb
  efi_secdb_add_entry db owner algorithm contents =
      efi_secdb_add_entry_or_secdb db owner algorithm contents false

-- `!efi_guid_cmp(owner, &entry->owner)`
unfoldable pub same_owner : List ℕ → List ℕ → Bool
same_owner a b = elim (efi_guid_cmp (guid_of_bytes a) (guid_of_bytes b)) [
  | Ordering.eq ↦ true
  | _ ↦ false
]

-- The loop of `efi_secdb_del_entry`, which deletes the first entry found. The counts of the list stay as they are.
unfoldable pub delete_first : Bool → List ℕ → List ℕ → ℕ → List Signature → Outcome (List Signature)
unfolding equal_bytes same_owner
delete_first has_owner owner contents n [] = ok []
delete_first has_owner owner contents n (s ∷ ss) = load 0 n contents >>= λ new.
    load 0 n s.contents >>= λ old.
    if equal_bytes new old && (not has_owner || same_owner owner s.owner)
    then ok ss
    else (delete_first has_owner owner contents n ss >>= λ rest. ok (s ∷ rest))

unfoldable pub efi_secdb_del_entry : Secdb → List ℕ → ℕ → List ℕ → Outcome Secdb
unfolding secdb_entry_has_owner_from_type find_secdb_entry delete_first size_for
efi_secdb_del_entry db owner algorithm contents =
    secdb_entry_has_owner_from_type algorithm >>= λ has_owner.
    let sigsz = size_for algorithm (length contents) in
    let n = if has_owner then minus64 sigsz guid_size else sigsz in
    guard (not (length contents == 0)) einval >>= λ _.
    elim (find_secdb_entry db algorithm (length contents)) [
      | none ↦ err enoent
      | some p ↦ delete_first has_owner owner contents n (p.list.entries) >>= λ entries.
          ok (record db { lists = p.before ++ (record (p.list) { entries = entries } ∷ p.after) })
    ]
