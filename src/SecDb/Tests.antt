-- ===== src/SecDb/Tests.antt =====
-- Concrete signature databases, and the theorems at them.
use Prim.Native.Nat.{Ordering}
use mathlib.Core.List.{Permᴰ}
use mathlib.Core.List.Permᴰ
use efivar.Common.{
  ℕ, ◌+◌, ◌<◌, ◌≡◌, ◌↔◌, refl, ap, arith, false, none, some, List, [], ◌∷◌, ◌++◌, length, All, map,
  replicate, take, get_or,
}
use efivar.Common.Outcome.{Outcome, ok, fault, ◌>>=◌}
use efivar.Common.Memory.{concat, le_bytes, le_value, load, store}
use efivar.EslIter.Layout.{encode, all_blocks, blocks, sig_blocks}
use efivar.SecDb.{
  Sublist, Secdb, zeroed, type_max, type_x509_cert, efi_secdb_new, secdb_entry_size_from_type,
  alg_of, efi_secdb_algs,
}
use efivar.Guid.{efi_guid_cmp, cmp_bytes}
use efivar.Guid.Layout.{guid_of_bytes}
use efivar.Variable.Import.{minus64}
use efivar.SecDb.Compare.{secdb_cmp}
use efivar.SecDb.Edit.{efi_secdb_add_entry_or_secdb, efi_secdb_add_entry, efi_secdb_del_entry}
use efivar.SecDb.Valid.{IsSublist, Sorts, signatures}
use efivar.SecDb.Places.{Suits}
use efivar.SecDb.Added.{Grown, efi_secdb_add_entry_or_secdb-Grown}
use efivar.SecDb.Visit.{align_up, start_list, write_entry, efi_secdb_realize}
use efivar.SecDb.Written.{sig_list, HasSpaces, efi_secdb_realize-encode}
use efivar.SecDb.Space.{efi_secdb_realize-needs_space}
use efivar.SecDb.Parse.{efi_secdb_parse}
use efivar.SecDb.Chain.{Has}
use efivar.SecDb.RoundTrip.{IsHashList, efi_secdb_parse-realize}

-- Sorting by insertion.
placed : {A : Type 0} → Ordering → A → A → List A → List A → List A
placed Ordering.gt x y ys inserted = y ∷ inserted
placed Ordering.eq x y ys inserted = x ∷ y ∷ ys
placed Ordering.lt x y ys inserted = x ∷ y ∷ ys

insert : {A : Type 0} → (A → A → Ordering) → A → List A → List A
insert cmp x [] = x ∷ []
insert cmp x (y ∷ ys) = placed (cmp x y) x y ys (insert cmp x ys)

abbrev insertion_sort : (A : Type 0) → (A → A → Ordering) → List A → List A
insertion_sort A cmp [] = []
insertion_sort A cmp (x ∷ xs) = insert cmp x (insertion_sort A cmp xs)

placed-permᴰ :
    {A : Type 0} (o : Ordering) (x y : A) (ys inserted : List A)
    → Permᴰ inserted (x ∷ ys)
    → Permᴰ (placed o x y ys inserted) (x ∷ y ∷ ys)
unfolding placed
placed-permᴰ Ordering.gt x y ys inserted h = Permᴰ.trans (Permᴰ.cons refl h) (Permᴰ.swap refl refl)
placed-permᴰ Ordering.eq x y ys inserted h = Permᴰ.refl (x ∷ y ∷ ys)
placed-permᴰ Ordering.lt x y ys inserted h = Permᴰ.refl (x ∷ y ∷ ys)

insert-permᴰ :
    {A : Type 0} (cmp : A → A → Ordering) (x : A) (ys : List A) → Permᴰ (insert cmp x ys) (x ∷ ys)
unfolding insert
insert-permᴰ cmp x [] = Permᴰ.refl (x ∷ [])
insert-permᴰ cmp x (y ∷ ys) =
    placed-permᴰ (cmp x y) x y ys (insert cmp x ys) (insert-permᴰ cmp x ys)

insertion_sort-Sorts : Sorts insertion_sort
insertion_sort-Sorts A cmp [] = Permᴰ.nil
insertion_sort-Sorts A cmp (x ∷ xs) =
    Permᴰ.trans (insert-permᴰ cmp x (insertion_sort A cmp xs))
      (Permᴰ.cons refl (insertion_sort-Sorts A cmp xs))

abbrev some_guid : ℕ → List ℕ
some_guid type = replicate 16 (type + 1)

some_guid-length : (type : ℕ) → type < type_max → length (some_guid type) ≡ 16
some_guid-length type h = refl

some_guid-distinct : (a b : ℕ) → a < type_max → b < type_max → some_guid a ≡ some_guid b → a ≡ b
some_guid-distinct a b h k e = omega (arith, ap (λ (xs : List ℕ). get_or xs 0 0) e)

-- Two SHA-1 hashes, then one of SHA-256.
abbrev sha1 : Sublist
sha1 = record zeroed {
  algorithm = 8;
  listsz = 100;
  sigsz = 36;
  nsigs = 2;
  entries =
      record { owner = replicate 16 1; contents = replicate 20 7 }
      ∷ record { owner = replicate 16 2; contents = replicate 20 5 }
      ∷ [];
}

abbrev sha256 : Sublist
sha256 = record zeroed {
  algorithm = 2;
  listsz = 76;
  sigsz = 48;
  nsigs = 1;
  entries = record { owner = replicate 16 3; contents = replicate 32 9 } ∷ [];
}

abbrev hashes : Secdb
hashes = record { top = zeroed; lists = sha1 ∷ sha256 ∷ [] }

abbrev hashes-IsSublist : (spare : ℕ) → spare < 1000 → All (IsSublist spare) hashes.lists
hashes-IsSublist spare small = (
  record {
    known = omega arith;
    no_header = refl;
    counted = refl;
    sized = refl;
    some_entry = omega arith;
    filled = ((refl, refl), ((refl, refl), tt));
    fits = omega arith;
  },
  (
    record {
      known = omega arith;
      no_header = refl;
      counted = refl;
      sized = refl;
      some_entry = omega arith;
      filled = ((refl, refl), tt);
      fits = omega arith;
    },
    tt,
  ),
)

hashes-HasSpaces : HasSpaces 128 0 hashes.lists
unfolding align_up
hashes-HasSpaces = (omega arith, (omega arith, tt))

hashes-Suits : Suits hashes.lists 8 20
unfolding secdb_entry_size_from_type alg_of efi_secdb_algs
hashes-Suits = record { hash_size = λ _. refl; unlike = λ e. absurd (omega (arith, e)) }

hashes-IsHashList : All IsHashList hashes.lists
unfolding secdb_entry_size_from_type alg_of efi_secdb_algs
hashes-IsHashList =
    ((λ e. omega (arith, e), omega arith, refl), ((λ e. omega (arith, e), omega arith, refl), tt))

efi_secdb_add_entry_or_secdb-Grown_example :
    (db' : Secdb) × (efi_secdb_add_entry_or_secdb insertion_sort hashes
        (replicate 16 4)
        8
        (replicate 20 6)
        false
      ≡ ok db')
    × All (IsSublist 10) db'.lists
    × Grown (signatures hashes.lists) 8 (replicate 16 4) (replicate 20 6) (signatures db'.lists)
efi_secdb_add_entry_or_secdb-Grown_example =
    efi_secdb_add_entry_or_secdb-Grown insertion_sort hashes (replicate 16 4) (replicate 20 6) 8 10
      false insertion_sort-Sorts (omega arith) refl (omega arith) (omega arith) hashes-Suits
      (hashes-IsSublist 74 (omega arith))

efi_secdb_realize-encode_example :
    (rest : List ℕ) × (efi_secdb_realize 128 some_guid hashes
      ≡ ok (
        encode (map (sig_list some_guid) hashes.lists) ++ rest,
        length (encode (map (sig_list some_guid) hashes.lists)),
      ))
efi_secdb_realize-encode_example =
    efi_secdb_realize-encode 128 0 some_guid hashes some_guid-length
      (hashes-IsSublist 0 (omega arith)) hashes-HasSpaces

efi_secdb_parse-realize_example :
    (buf : List ℕ) × (used : ℕ) × (db' : Secdb) × (efi_secdb_realize 128 some_guid hashes
      ≡ ok (buf, used))
    × (efi_secdb_parse some_guid insertion_sort 4 (take used buf) none ≡ some (ok db'))
    × All (IsSublist 0) db'.lists
    × ((a : ℕ) (c : List ℕ) → Has a c (signatures db'.lists) ↔ Has a c (signatures hashes.lists))
unfolding encode all_blocks blocks sig_blocks concat signatures le_bytes
efi_secdb_parse-realize_example =
    efi_secdb_parse-realize some_guid insertion_sort insertion_sort-Sorts some_guid-length
      some_guid-distinct 128 4 hashes (hashes-IsSublist 0 (omega arith)) hashes-IsHashList
      (omega arith) hashes-HasSpaces (omega arith) (omega arith) (omega arith)

hashes_written :
    (rest : List ℕ) × (efi_secdb_realize 128 some_guid hashes
      ≡ ok (
        encode (map (sig_list some_guid) hashes.lists) ++ rest,
        length (encode (map (sig_list some_guid) hashes.lists)),
      ))
hashes_written =
    efi_secdb_realize-encode 128 0 some_guid hashes some_guid-length
      (hashes-IsSublist 0 (omega arith)) hashes-HasSpaces

efi_secdb_realize-needs_space_example : HasSpaces 128 0 hashes.lists
efi_secdb_realize-needs_space_example =
    efi_secdb_realize-needs_space 128 0 some_guid hashes
      (
        encode (map (sig_list some_guid) hashes.lists) ++ hashes_written.0,
        length (encode (map (sig_list some_guid) hashes.lists)),
      )
      some_guid-length (hashes-IsSublist 0 (omega arith)) (hashes_written.1)

-- The sizes of the entries of each list, and how many it counts and holds.
abbrev shape : Outcome Secdb → List (ℕ × ℕ × ℕ)
shape (ok db) = map (λ (l : Sublist). (l.sigsz, l.nsigs, length l.entries)) db.lists
shape _ = []

abbrev certificate : ℕ → Secdb → Outcome Secdb
certificate size db =
    efi_secdb_add_entry insertion_sort db (replicate 16 1) type_x509_cert (replicate size size)

abbrev certificates : ℕ → ℕ → Outcome Secdb
certificates a b = certificate a efi_secdb_new >>= λ db. certificate b db

-- A certificate of 4 bytes joins the list of one of 20 bytes, and the list then says 20 bytes an entry in place of 36.
certificates_mixed : shape (certificates 20 4) ≡ (20, 2, 2) ∷ []
unfolding efi_secdb_add_entry efi_secdb_new insert load
certificates_mixed = refl

-- Two certificates of the same size are in two lists.
certificates_apart : shape (certificates 20 20) ≡ (36, 1, 1) ∷ (36, 1, 1) ∷ []
unfolding efi_secdb_add_entry efi_secdb_new insert placed secdb_cmp
certificates_apart = refl

-- A deletion leaves the count of the list.
deleted :
    shape (efi_secdb_del_entry hashes (replicate 16 2) 8 (replicate 20 5))
    ≡ (36, 2, 1) ∷ (48, 1, 1) ∷ []
unfolding efi_secdb_del_entry load minus64 efi_guid_cmp cmp_bytes guid_of_bytes le_value
deleted = refl

-- In a page of 64 bytes there is no space for the header of a list and an entry of 48 bytes, and no more is asked for.
realize_beyond : efi_secdb_realize 64 some_guid (record hashes { lists = sha256 ∷ [] }) ≡ fault
unfolding efi_secdb_realize start_list store minus64 le_bytes write_entry load
realize_beyond = refl
