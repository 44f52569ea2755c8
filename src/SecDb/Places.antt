-- ===== src/SecDb/Places.antt =====
-- src/secdb.c: the list that an entry is added to.
use efivar.Common.{
  ℕ, ◌+◌, ◌*◌, ◌^◌, ◌<◌, ◌≡◌, ◌≢◌, refl, sym, ap, ◌∙◌, subst, Bool, true, false, some, List, [],
  ◌∷◌, ◌++◌, length, All, arith, map, append-nil, inl, inr, Option-cases,
}
use efivar.EslIter.{guid_size}
use efivar.EslIter.Layout.{Holds}
use efivar.SecDb.{
  Sublist, Secdb, type_max, type_x509_cert, secdb_entry_size_from_type, secdb_header_size_from_type,
  alg_of, efi_secdb_algs,
}
use efivar.SecDb.Edit.{
  Place, is_candidate, find_prev, size_for, find_secdb_entry, alloc_secdb_entry, retype,
  find_or_alloc_secdb_entry, place_for,
}
use efivar.SecDb.Valid.{IsSublist, signatures, signatures-append, All-place, All-IsSublist}

-- The size of the data is that of the type; where the type has none, no list has entries of 16 bytes more.
pub record Suits (lists : List Sublist) (algorithm size : ℕ) : Type 0 where
  pub hash_size : algorithm ≢ type_x509_cert → size + 16 ≡ secdb_entry_size_from_type algorithm
  pub unlike :
      algorithm ≡ type_x509_cert
      → All (λ (l : Sublist). l.algorithm ≡ type_x509_cert → l.sigsz ≢ size + 32) lists

-- The place is in the lists, and its list takes entries of that type and size.
pub record Chosen (spare : ℕ) (lists : List Sublist) (algorithm size : ℕ) (p : Place) : Type 0 where
  pub before_valid : All (IsSublist spare) p.before
  pub after_valid : All (IsSublist spare) p.after
  pub same_type : p.list.algorithm ≡ algorithm
  pub same_size : p.list.sigsz ≡ size + 16
  pub no_header : p.list.hdrsz ≡ 0
  pub counted : p.list.nsigs ≡ length p.list.entries
  pub filled : All (Holds (size + 16)) p.list.entries
  pub sized : 0 < length p.list.entries → p.list.listsz ≡ 28 + (size + 16) * length p.list.entries
  pub room : 44 + size + spare + (size + 16) * length p.list.entries < 2 ^ 32
  pub all_there : signatures (p.before ++ (p.list ∷ p.after)) ≡ signatures lists

find_prev-found :
    (test : Sublist → Bool) (ls : List Sublist) (p : Place)
    → find_prev test ls ≡ some p
    → (ls ≡ p.before ++ (p.list ∷ p.after)) × (test p.list ≡ true)
unfolding find_prev
find_prev-found test [] p h = cc
find_prev-found test (l ∷ ls) p h = elim (Option-cases (find_prev test ls)) [
  | inl e ↦ ground (arith, e)
  | inr (q, e) ↦ ground (arith, e, find_prev-found test ls q)
]

size_for-eq :
    (lists : List Sublist) (algorithm size : ℕ)
    → Suits lists algorithm size
    → size_for algorithm (size + 16) ≡ size + 16
unfolding size_for
size_for-eq lists algorithm size h = ground (arith, h.hash_size)

header_zero : (algorithm : ℕ) → algorithm < type_max → secdb_header_size_from_type algorithm ≡ 0
unfolding secdb_header_size_from_type alg_of efi_secdb_algs
header_zero algorithm h = ground arith

Suits-found :
    (lists : List Sublist) (algorithm size spare : ℕ) (l : Sublist)
    → IsSublist spare l
    → Suits lists algorithm size
    → (algorithm ≡ type_x509_cert → l.algorithm ≡ type_x509_cert → l.sigsz ≢ size + 32)
    → is_candidate algorithm (size_for algorithm (size + 16 + guid_size)) l ≡ true
    → (l.algorithm ≡ algorithm) × (l.sigsz ≡ size + 16)
unfolding is_candidate size_for
Suits-found lists algorithm size spare l v h ne e =
    ground (arith, h.hash_size, v.sized, v.known, ne)

module _ (db : Secdb) (algorithm size spare : ℕ)
    (valid : All (IsSublist (44 + size + spare)) db.lists) (known : algorithm < type_max)
    (h : Suits db.lists algorithm size) (small : 44 + size + spare < 2 ^ 32) where
  fresh_place : ℕ → Place
  unfolding retype alloc_secdb_entry
  fresh_place sigsz = retype algorithm (size + 16) (alloc_secdb_entry db algorithm sigsz)

  fresh_place-Chosen : (sigsz : ℕ) → Chosen spare db.lists algorithm size (fresh_place sigsz)
  unfolding fresh_place retype alloc_secdb_entry signatures
  fresh_place-Chosen sigsz = record {
    before_valid = All-IsSublist (44 + size) spare db.lists valid;
    after_valid = tt;
    same_type = refl;
    same_size = omega arith;
    no_header = header_zero algorithm known;
    counted = refl;
    filled = tt;
    sized = λ pos. absurd (omega arith);
    room = omega arith;
    all_there = signatures-append db.lists _ ∙ append-nil (signatures db.lists);
  }

  found-Chosen :
      (p : Place)
      → find_secdb_entry db algorithm (size + 16) ≡ some p
      → Chosen spare db.lists algorithm size (retype algorithm (size + 16) p)
  unfolding find_secdb_entry retype signatures
  found-Chosen p e =
      let (cut, passed) = find_prev-found _ db.lists p e in
      let (vb, v, va) =
        All-place (IsSublist (44 + size + spare)) p.before p.list p.after
          (subst (All (IsSublist (44 + size + spare))) cut valid) in
      let (same_type, same_size) =
        Suits-found db.lists algorithm size (44 + size + spare) p.list v h
          (λ is_cert.
            (All-place _ p.before p.list p.after (subst (All _) cut (h.unlike is_cert))).1)
          passed in
      let product : p.list.sigsz * length p.list.entries ≡ (size + 16) * length p.list.entries =
        ap (λ (n : ℕ). n * length p.list.entries) same_size in
      record {
        before_valid = All-IsSublist (44 + size) spare p.before vb;
        after_valid = All-IsSublist (44 + size) spare p.after va;
        same_type = refl;
        same_size = omega arith;
        no_header = v.no_header;
        counted = v.counted;
        filled = subst (λ n. All (Holds n) p.list.entries) same_size v.filled;
        sized = λ pos. omega (arith, v.sized, product);
        room = omega (arith, v.sized, product, v.fits);
        all_there =
            signatures-append p.before _
            ∙ ap
                (λ (a : ℕ).
                  signatures p.before ++ (map (λ s. (a, s)) p.list.entries ++ signatures p.after))
                (sym same_type)
            ∙ sym (signatures-append p.before (p.list ∷ p.after))
            ∙ ap signatures (sym cut);
      }

  pub place_for-Chosen :
      (force : Bool)
      → Chosen spare db.lists algorithm size (place_for db algorithm (size + 16) force)
  unfolding place_for find_or_alloc_secdb_entry
  place_for-Chosen true = unfold fresh_place in fresh_place-Chosen (size + 16)
  place_for-Chosen false = elim (Option-cases (find_secdb_entry db algorithm (size + 16))) [
    | inl e ↦
        rw (size_for-eq db.lists algorithm size h, e)
          (unfold fresh_place in fresh_place-Chosen (size + 16))
    | inr (p, e) ↦ rw (size_for-eq db.lists algorithm size h, e) (found-Chosen p e)
  ]
