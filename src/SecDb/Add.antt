-- ===== src/SecDb/Add.antt =====
-- src/secdb.c: what `efi_secdb_add_entry_or_secdb` leaves of a database.
use Prim.Native.Nat.{Ordering}
use mathlib.Core.List.{Permᴰ, map-append}
use mathlib.Core.List.Permᴰ
use efivar.Common.{
  ℕ, ◌+◌, ◌*◌, ◌<◌, ◌≡◌, refl, sym, ap, ◌∙◌, subst, Bool, true, false, List, [], ◌∷◌, ◌++◌, length,
  All, All-append, arith, inl, inr, Bool-cases, if-true, if-false, not, ◌&&◌, ◌==◌, ◌⊎◌, take,
  append_assoc, length-append, take-length_append, append-nil,
}
use efivar.Common.Words.{u32}
use efivar.Common.Outcome.{ok}
use efivar.Common.Memory.{load, load-all}
use efivar.EslIter.Layout.{Signature, Holds}
use efivar.SecDb.{Sublist, type_max, secdb_entry_size, has_flag, flag_sort_data}
use efivar.SecDb.Edit.{
  Place, equal_bytes, has_contents, secdb_add_entry_data, sort_entries, sort_lists,
}
use efivar.SecDb.Valid.{
  IsSublist, signatures, signatures-append, signatures-permᴰ, All-permᴰ, length-permᴰ, Sorts, typed,
}
use efivar.SecDb.Places.{Chosen}

pub equal_bytes-eq : (a b : List ℕ) → equal_bytes a b ≡ true → a ≡ b
unfolding equal_bytes
equal_bytes-eq [] [] h = refl
equal_bytes-eq [] (y ∷ b) h = cc
equal_bytes-eq (x ∷ a) [] h = cc
equal_bytes-eq (x ∷ a) (y ∷ b) h = ground (arith, equal_bytes-eq a b)

take-all : (xs : List ℕ) → take (length xs) xs ≡ xs
take-all xs = ap (take (length xs)) (sym (append-nil xs)) ∙ take-length_append xs []

-- The data of an entry among others.
abbrev pub Among : List ℕ → List Signature → Type 0
Among contents ss =
    (pre : List Signature) × (s : Signature) × (post : List Signature) × (ss ≡ pre ++ (s ∷ post))
    × (s.contents ≡ contents)

pub has_contents-cases :
    (contents : List ℕ) (ss : List Signature)
    → All (Holds (length contents + 16)) ss
    → (has_contents contents ss ≡ ok false)
      ⊎ ((has_contents contents ss ≡ ok true) × Among contents ss)
unfolding has_contents
has_contents-cases contents [] h = inl refl
has_contents-cases contents (s ∷ ss) h =
    let read : load 0 (length contents) s.contents ≡ ok s.contents =
      subst (λ n. load 0 n s.contents ≡ ok s.contents) (omega (arith, h.0.1))
        (load-all s.contents) in
    elim (Bool-cases (equal_bytes contents s.contents)) [
      | inl e ↦ inr (
        rw (read, has_contents) (rw e refl),
        ([], s, ss, refl, sym (equal_bytes-eq contents s.contents e)),
      )
      | inr e ↦ elim (has_contents-cases contents ss h.1) [
        | inl none_there ↦ inl (rw (read, has_contents) (rw e none_there))
        | inr (there, (pre, t, post, cut, same)) ↦
            inr (rw (read, has_contents) (rw e there), (s ∷ pre, t, post, ap (◌∷◌ s) cut, same))
      ]
    ]

module _ (spare : ℕ) (lists : List Sublist) (algorithm : ℕ) (owner contents : List ℕ) (p : Place)
    (some_data : 0 < length contents) (owner_size : length owner ≡ 16)
    (known : algorithm < type_max) (c : Chosen spare lists algorithm (length contents) p) where
  abbrev pub new_entry : Signature
  new_entry = record { owner = owner; contents = contents }

  pub longer : Sublist
  longer = record (p.list) {
    nsigs = p.list.nsigs + 1;
    entries = p.list.entries ++ (new_entry ∷ []);
    listsz = 28 + (length contents + 16) * (length p.list.entries + 1);
  }

  product :
      (length contents + 16) * (length p.list.entries + 1)
      ≡ (length contents + 16) * length p.list.entries + (length contents + 16)
  product = grind arith

  pub secdb_add_entry_data-longer : secdb_add_entry_data p.list owner contents ≡ longer
  unfolding secdb_add_entry_data longer secdb_entry_size
  secdb_add_entry_data-longer =
      let n : ℕ = length contents in
      let same : u32 n ≡ n = omega (arith, c.room) in
      let size : p.list.sigsz * (p.list.nsigs + 1) ≡ (n + 16) * (length p.list.entries + 1) =
        cc (c.same_size, c.counted) in
      rw same
        (rw (take-all contents) (ground (arith, size, product, c.room, c.no_header, c.same_size)))

  pub longer-IsSublist : IsSublist spare longer
  unfolding longer
  longer-IsSublist = record {
    known = omega (arith, c.same_type, known);
    no_header = c.no_header;
    counted = omega (arith, c.counted, length-append p.list.entries (new_entry ∷ []));
    sized = rw (length-append p.list.entries (new_entry ∷ [])) (rw (c.same_size) refl);
    some_entry = omega (arith, length-append p.list.entries (new_entry ∷ []));
    filled =
        subst (λ n. All (Holds n) (p.list.entries ++ (new_entry ∷ []))) (sym c.same_size)
          (All-append (Holds (length contents + 16)) p.list.entries (new_entry ∷ []) c.filled
            ((owner_size, omega arith), tt));
    fits = omega (arith, product, c.room);
  }

  -- The list as it was, if an entry has the data already.
  pub kept-IsSublist : 0 < length p.list.entries → IsSublist spare p.list
  kept-IsSublist pos = record {
    known = omega (arith, c.same_type, known);
    no_header = c.no_header;
    counted = c.counted;
    sized = c.sized pos ∙ ap (λ (k : ℕ). 28 + k * length p.list.entries) (sym c.same_size);
    some_entry = pos;
    filled = subst (λ n. All (Holds n) p.list.entries) (sym c.same_size) c.filled;
    fits = omega (arith, c.sized pos, c.room);
  }

  pub signatures-longer :
      Permᴰ
        (signatures (p.before ++ (longer ∷ p.after)))
        ((algorithm, new_entry) ∷ signatures lists)
  unfolding signatures longer
  signatures-longer =
      subst (λ t. Permᴰ t ((algorithm, new_entry) ∷ signatures lists)) (sym spread)
        (Permᴰ.trans
          (Permᴰ.middle (algorithm, new_entry) (signatures p.before ++ typed p.list)
            (signatures p.after))
          (Permᴰ.cons refl (
            subst (Permᴰ ((signatures p.before ++ typed p.list) ++ signatures p.after))
              (append_assoc (signatures p.before) (typed p.list) (signatures p.after)
                ∙ sym (signatures-append p.before (p.list ∷ p.after))
                ∙ c.all_there)
              (Permᴰ.refl _))))
    where
      spread :
          signatures (p.before ++ (longer ∷ p.after))
          ≡ (signatures p.before ++ typed p.list) ++ ((algorithm, new_entry) ∷ signatures p.after)
      spread =
          signatures-append p.before (longer ∷ p.after)
          ∙ ap (λ (t : List (ℕ × Signature)). signatures p.before ++ (t ++ signatures p.after))
              (map-append (λ s. (p.list.algorithm, s)) p.list.entries (new_entry ∷ []))
          ∙ ap (λ (t : List (ℕ × Signature)). signatures p.before ++ t)
              (append_assoc (typed p.list) ((p.list.algorithm, new_entry) ∷ [])
                (signatures p.after))
          ∙ sym (
              append_assoc (signatures p.before) (typed p.list)
                ((p.list.algorithm, new_entry) ∷ signatures p.after))
          ∙ ap
              (λ (a : ℕ).
                (signatures p.before ++ typed p.list) ++ ((a, new_entry) ∷ signatures p.after))
              c.same_type

reorder-IsSublist :
    (spare : ℕ) (l : Sublist) (es : List Signature)
    → Permᴰ es l.entries
    → IsSublist spare l
    → IsSublist spare (record l { entries = es })
reorder-IsSublist spare l es p v =
    let same : length es ≡ length l.entries = length-permᴰ p in
    record {
      known = v.known;
      no_header = v.no_header;
      counted = v.counted ∙ sym same;
      sized = v.sized ∙ ap (λ (k : ℕ). 28 + l.sigsz * k) (sym same);
      some_entry = omega (arith, same, v.some_entry);
      filled = All-permᴰ (Holds l.sigsz) p v.filled;
      fits = v.fits;
    }

module _ (qsort : (A : Type 0) → (A → A → Ordering) → List A → List A) (sorts : Sorts qsort) where
  sort_entries-eq :
      (l : Sublist) (n : ℕ)
      → (es : List Signature) × (sort_entries qsort l n ≡ record l { entries = es })
        × Permᴰ es l.entries
  unfolding sort_entries
  sort_entries-eq l n = elim (Bool-cases (has_flag l.flags flag_sort_data && not (l.sigsz == 0))) [
    | inl e ↦ (_, if-true _ _ _ e, sorts Signature _ l.entries)
    | inr e ↦ (l.entries, if-false _ _ _ e, Permᴰ.refl l.entries)
  ]

  pub sort_lists-permᴰ :
      (sort descending : Bool) (ls : List Sublist) → Permᴰ (sort_lists qsort sort descending ls) ls
  unfolding sort_lists
  sort_lists-permᴰ true true ls = sorts Sublist _ ls
  sort_lists-permᴰ true false ls = sorts Sublist _ ls
  sort_lists-permᴰ false d ls = Permᴰ.refl ls

  -- What is added to the place chosen.
  pub add_at-longer :
      (spare : ℕ) (p : Place) (longer : Sublist) (n : ℕ) (sort descending : Bool)
      → All (IsSublist spare) p.before
      → All (IsSublist spare) p.after
      → IsSublist spare longer
      → All
          (IsSublist spare)
          (sort_lists qsort sort descending (p.before ++ (sort_entries qsort longer n ∷ p.after)))
        × Permᴰ
            (signatures (
              sort_lists qsort sort descending
                (p.before ++ (sort_entries qsort longer n ∷ p.after))))
            (signatures (p.before ++ (longer ∷ p.after)))
  unfolding signatures
  add_at-longer spare p longer n sort descending vb va v =
      let (es, eq, perm) = sort_entries-eq longer n in
      let sorted =
        sort_lists-permᴰ sort descending (p.before ++ (sort_entries qsort longer n ∷ p.after)) in
      (
        All-permᴰ (IsSublist spare) sorted (
            All-append (IsSublist spare) p.before _ vb
              (subst (IsSublist spare) (sym eq) (reorder-IsSublist spare longer es perm v), va)),
        Permᴰ.trans (signatures-permᴰ sorted) (
            subst (λ t. Permᴰ t (signatures (p.before ++ (longer ∷ p.after))))
              (sym (signatures-append p.before (sort_entries qsort longer n ∷ p.after)))
              (subst
                (Permᴰ (
                  signatures p.before
                  ++ (typed (sort_entries qsort longer n) ++ signatures p.after)))
                (sym (signatures-append p.before (longer ∷ p.after)))
                (Permᴰ.append_left (signatures p.before) (
                  Permᴰ.append_right (signatures p.after) (
                    subst (λ (l : Sublist). Permᴰ (typed l) (typed longer)) (sym eq)
                      (Permᴰ.map (λ s. (longer.algorithm, s)) perm)))))),
      )
