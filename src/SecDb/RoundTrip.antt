-- ===== src/SecDb/RoundTrip.antt =====
-- src/secdb.c: a database that is realized and parsed again.
use Prim.Native.Nat.{Ordering}
use mathlib.Core.List.Permᴰ
use efivar.Common.{
  ℕ, zero, suc, ◌+◌, ◌^◌, ◌≤◌, ◌<◌, ◌≡◌, ◌≢◌, ◌↔◌, inl, inr, refl, sym, ap, ◌∙◌, subst, Bool, true,
  false, none, some, List, [], ◌∷◌, ◌++◌, length, All, All-append, arith, map, take, Bool-cases,
  ==_iff, ◌==◌, take-length_append, if-true, if-false,
}
use efivar.Common.Outcome.{ok}
use efivar.EslIter.{esl_iter_new, EslIter}
use efivar.EslIter.Layout.{Signature, IsSigList, Holds, encode}
use efivar.EslIter.Found.{Found, plain, found_in, found}
use efivar.EslIter.Walk.{esl_iter_next-walk}
use efivar.SecDb.{
  Sublist, Secdb, type_max, type_x509_cert, efi_secdb_new, has_flag, flag_sort,
  flag_sort_descending, secdb_entry_size_from_type,
}
use efivar.SecDb.Edit.{equal_bytes, sort_lists}
use efivar.SecDb.Valid.{IsSublist, signatures, signatures-permᴰ, All-permᴰ, Sorts, typed}
use efivar.SecDb.Add.{equal_bytes-eq, sort_lists-permᴰ}
use efivar.SecDb.Visit.{efi_secdb_realize}
use efivar.SecDb.Written.{sig_list, HasSpaces, efi_secdb_realize-encode}
use efivar.SecDb.Parse.{find_type, secdb_entry_type_from_guid, efi_secdb_parse}
use efivar.SecDb.Chain.{Has, Has-permᴰ, Corresponds, IsHash, weight, parse_loop-Collected}

equal_bytes_refl : (a : List ℕ) → equal_bytes a a ≡ true
unfolding equal_bytes
equal_bytes_refl [] = refl
equal_bytes_refl (x ∷ a) = ground (arith, equal_bytes_refl a)

module _ (alg_guid : ℕ → List ℕ)
    (distinct : (a b : ℕ) → a < type_max → b < type_max → alg_guid a ≡ alg_guid b → a ≡ b) where
  find_type-known :
      (more i a : ℕ)
      → i ≤ a
      → a < i + more
      → i + more ≤ type_max
      → find_type alg_guid more i (alg_guid a) ≡ some a
  unfolding find_type
  find_type-known zero i a le lt top = absurd (omega arith)
  find_type-known (suc more) i a le lt top =
      elim (Bool-cases (equal_bytes (alg_guid a) (alg_guid i))) [
        | inl e ↦
            if-true _ _ _ e
            ∙ ap some (distinct i a (omega arith) (omega arith) (sym (equal_bytes-eq _ _ e)))
        | inr e ↦
            if-false _ _ _ e ∙ find_type-known more (i + 1) a (later e) (omega arith) (omega arith)
      ]
    where
      later : equal_bytes (alg_guid a) (alg_guid i) ≡ false → i + 1 ≤ a
      later e = elim (Bool-cases (i == a)) [
        | inl same ↦
            absurd (cc (e, equal_bytes_refl (alg_guid a), ap alg_guid ((==_iff i a).0 same)))
        | inr other ↦ ground arith
      ]

  type_from_guid-known :
      (a : ℕ) → a < type_max → secdb_entry_type_from_guid alg_guid (alg_guid a) ≡ some a
  unfolding secdb_entry_type_from_guid
  type_from_guid-known a lt = find_type-known type_max 0 a (omega arith) (omega arith) (omega arith)

  Corresponds-append :
      (fs gs : List Found) (ts us : List (ℕ × Signature))
      → Corresponds alg_guid fs ts
      → Corresponds alg_guid gs us
      → Corresponds alg_guid (fs ++ gs) (ts ++ us)
  Corresponds-append [] gs [] us h k = k
  Corresponds-append [] gs (t ∷ ts) us h k = absurd h
  Corresponds-append (f ∷ fs) gs [] us h k = absurd h
  Corresponds-append (f ∷ fs) gs (t ∷ ts) us h k = (h.0, Corresponds-append fs gs ts us h.1 k)

  Corresponds-plain :
      (l : Sublist) (ss : List Signature)
      → l.algorithm < type_max
      → Corresponds alg_guid (map (plain (sig_list alg_guid l)) ss) (map (λ s. (l.algorithm, s)) ss)
  unfolding plain
  Corresponds-plain l [] lt = tt
  Corresponds-plain l (s ∷ ss) lt =
      ((type_from_guid-known l.algorithm lt, refl), Corresponds-plain l ss lt)

  Corresponds-found_in :
      (l : Sublist) (ss : List Signature)
      → l.algorithm < type_max
      → Corresponds alg_guid (found_in (sig_list alg_guid l) ss) (map (λ s. (l.algorithm, s)) ss)
  unfolding found_in
  Corresponds-found_in l [] lt = tt
  Corresponds-found_in l (s ∷ ss) lt =
      ((type_from_guid-known l.algorithm lt, refl), Corresponds-plain l ss lt)

  Corresponds-found :
      (spare : ℕ) (ls : List Sublist)
      → All (IsSublist spare) ls
      → Corresponds alg_guid (found (map (sig_list alg_guid) ls)) (signatures ls)
  unfolding found signatures
  Corresponds-found spare [] h = tt
  Corresponds-found spare (l ∷ ls) (v, h) =
      Corresponds-append (found_in (sig_list alg_guid l) l.entries)
        (found (map (sig_list alg_guid) ls)) (typed l) (signatures ls)
        (Corresponds-found_in l l.entries v.known) (Corresponds-found spare ls h)

-- The lists are of types whose sizes are known, and have those sizes; no entry is without data.
abbrev pub IsHashList : Sublist → Type 0
IsHashList l =
    (l.algorithm ≢ type_x509_cert)
    × (16 < l.sigsz)
    × (l.sigsz ≡ secdb_entry_size_from_type l.algorithm)

All-IsHash-typed :
    (a ss : ℕ) (es : List Signature)
    → a < type_max
    → a ≢ type_x509_cert
    → 16 < ss
    → ss ≡ secdb_entry_size_from_type a
    → All (Holds ss) es
    → All IsHash (map (λ s. (a, s)) es)
All-IsHash-typed a ss [] known hash large size h = tt
All-IsHash-typed a ss (s ∷ es) known hash large size h = (
  (known, hash, h.0.0, omega (arith, h.0.1), omega (arith, h.0.1, size)),
  All-IsHash-typed a ss es known hash large size h.1,
)

All-IsHash :
    (spare : ℕ) (ls : List Sublist)
    → All (IsSublist spare) ls
    → All IsHashList ls
    → All IsHash (signatures ls)
unfolding signatures
All-IsHash spare [] h k = tt
All-IsHash spare (l ∷ ls) (v, h) (k, ks) =
    All-append IsHash (typed l) (signatures ls)
      (All-IsHash-typed l.algorithm l.sigsz l.entries v.known k.0 k.1 k.2 v.filled)
      (All-IsHash spare ls h ks)

All-IsSigList :
    (alg_guid : ℕ → List ℕ) (spare : ℕ) (ls : List Sublist)
    → ((type : ℕ) → type < type_max → length (alg_guid type) ≡ 16)
    → All (IsSublist spare) ls
    → All IsSigList (map (sig_list alg_guid) ls)
All-IsSigList alg_guid spare [] g h = tt
All-IsSigList alg_guid spare (l ∷ ls) g (v, h) = (
  record {
    type_size = g l.algorithm v.known;
    entry_sizes = v.filled;
    some_entry = v.some_entry;
    fits = omega (arith, v.sized, v.fits);
  },
  All-IsSigList alg_guid spare ls g h,
)

length-Corresponds :
    (alg_guid : ℕ → List ℕ) (fs : List Found) (ts : List (ℕ × Signature))
    → Corresponds alg_guid fs ts
    → length fs ≡ length ts
length-Corresponds alg_guid [] [] h = refl
length-Corresponds alg_guid [] (t ∷ ts) h = absurd h
length-Corresponds alg_guid (f ∷ fs) [] h = absurd h
length-Corresponds alg_guid (f ∷ fs) (t ∷ ts) h = ap suc (length-Corresponds alg_guid fs ts h.1)

length-map : {A B : Type 0} (f : A → B) (xs : List A) → length (map f xs) ≡ length xs
length-map f [] = refl
length-map f (x ∷ xs) = ap suc (length-map f xs)

some_bytes : (buf : List ℕ) (n : ℕ) (it : EslIter) → esl_iter_new buf n ≡ ok it → (n == 0) ≡ false
unfolding esl_iter_new
some_bytes buf n it h = ground arith

new_valid : (spare : ℕ) → All (IsSublist spare) efi_secdb_new.lists
unfolding efi_secdb_new
new_valid spare = tt

new_signatures : signatures efi_secdb_new.lists ≡ []
unfolding efi_secdb_new signatures
new_signatures = refl

module _ (alg_guid : ℕ → List ℕ) (qsort : (A : Type 0) → (A → A → Ordering) → List A → List A)
    (sorts : Sorts qsort) (guid_sizes : (type : ℕ) → type < type_max → length (alg_guid type) ≡ 16)
    (distinct : (a b : ℕ) → a < type_max → b < type_max → alg_guid a ≡ alg_guid b → a ≡ b) where
  -- Lists that are parsed into a new database.
  efi_secdb_parse-encode :
      (turns : ℕ) (ls : List Sublist)
      → All (IsSublist 0) ls
      → All IsHashList ls
      → 0 < length ls
      → weight (signatures ls) < 2 ^ 32
      → length (encode (map (sig_list alg_guid) ls)) < 2 ^ 32
      → length (signatures ls) < turns
      → (db' : Secdb) × (efi_secdb_parse alg_guid qsort turns
            (encode (map (sig_list alg_guid) ls))
            none
          ≡ some (ok db'))
        × All (IsSublist 0) db'.lists
        × ((a : ℕ) (c : List ℕ) → Has a c (signatures db'.lists) ↔ Has a c (signatures ls))
  unfolding efi_secdb_parse
  efi_secdb_parse-encode turns ls valid hashes pos light small many =
      let cs = Corresponds-found alg_guid distinct 0 ls valid in
      let (it, started, walked) =
        esl_iter_next-walk false (map (sig_list alg_guid) ls) turns
          (All-IsSigList alg_guid 0 ls guid_sizes valid)
          (omega (arith, length-map (sig_list alg_guid) ls)) small
          (omega (
            arith,
            length-Corresponds alg_guid (found (map (sig_list alg_guid) ls)) (signatures ls) cs,
          )) in
      let (parsed, looped, valid', collected) =
        parse_loop-Collected alg_guid qsort sorts 0 turns (found (map (sig_list alg_guid) ls))
          (signatures ls) efi_secdb_new it true (has_flag efi_secdb_new.top.flags flag_sort) walked
          cs (All-IsHash 0 ls valid hashes) (omega (arith, light))
          (new_valid (weight (signatures ls) + 0)) in
      let d : Bool = has_flag efi_secdb_new.top.flags flag_sort_descending in
      let sorted =
        sort_lists-permᴰ qsort sorts (has_flag efi_secdb_new.top.flags flag_sort) d parsed.lists in
      (
        record parsed {
          lists = sort_lists qsort (has_flag efi_secdb_new.top.flags flag_sort) d parsed.lists;
        },
        rw (some_bytes _ _ it started) (rw started (rw looped refl)),
        All-permᴰ (IsSublist 0) sorted valid',
        λ a c. (
          λ h. elim ((collected a c).0 (Has-permᴰ a c (signatures-permᴰ sorted) h)) [
            | inl x ↦ x
            | inr x ↦ absurd (subst (Has a c) new_signatures x)
          ],
          λ h. Has-permᴰ a c (Permᴰ.symm (signatures-permᴰ sorted)) ((collected a c).1 (inl h)),
        ),
      )

  -- A database that is not empty, whose lists are well formed, of types other than certificates and of the sizes that these
  -- types have, with no more than 32 bits of data, is realized with the space that it needs and parsed again: both succeed, with
  -- more turns than there are signatures, and the new database is well formed and has the same data of the same types.
  pub efi_secdb_parse-realize :
      (page_size turns : ℕ) (db : Secdb)
      → All (IsSublist 0) db.lists
      → All IsHashList db.lists
      → 0 < length db.lists
      → HasSpaces page_size 0 db.lists
      → weight (signatures db.lists) < 2 ^ 32
      → length (encode (map (sig_list alg_guid) db.lists)) < 2 ^ 32
      → length (signatures db.lists) < turns
      → (buf : List ℕ) × (used : ℕ) × (db' : Secdb) × (efi_secdb_realize page_size alg_guid db
          ≡ ok (buf, used))
        × (efi_secdb_parse alg_guid qsort turns (take used buf) none ≡ some (ok db'))
        × All (IsSublist 0) db'.lists
        × ((a : ℕ) (c : List ℕ) → Has a c (signatures db'.lists) ↔ Has a c (signatures db.lists))
  efi_secdb_parse-realize page_size turns db valid hashes pos spaces light small many =
      let out = encode (map (sig_list alg_guid) db.lists) in
      let (rest, realized) =
        efi_secdb_realize-encode page_size 0 alg_guid db guid_sizes valid spaces in
      let (db', parsed, valid', same) =
        efi_secdb_parse-encode turns db.lists valid hashes pos light small many in
      (
        out ++ rest,
        length out,
        db',
        realized,
        ap (λ (b : List ℕ). efi_secdb_parse alg_guid qsort turns b none)
              (take-length_append out rest)
            ∙ parsed,
        valid',
        same,
      )
