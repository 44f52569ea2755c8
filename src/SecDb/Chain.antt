-- ===== src/SecDb/Chain.antt =====
-- src/secdb.c: `efi_secdb_parse` over the entries that an iterator finds.
use Prim.Native.Nat.{Ordering}
use mathlib.Core.List.{Permᴰ}
use mathlib.Core.List.Permᴰ
use efivar.Common.{
  ℕ, zero, suc, ◌+◌, ◌^◌, ◌<◌, ◌≡◌, ◌≢◌, ◌↔◌, ◌⊎◌, inl, inr, refl, sym, ap, ◌∙◌, subst, Bool, false,
  not, ◌&&◌, ◌||◌, some, Option-cases, List, [], ◌∷◌, ◌++◌, length, All, arith,
}
use efivar.Common.Outcome.{ok, Outcome-cases}
use efivar.Common.Memory.{load}
use efivar.EslIter.{EslIter, Entry, Next, iter_end, iter_next, esl_iter_next}
use efivar.EslIter.Layout.{Signature}
use efivar.EslIter.Found.{Found, walk}
use efivar.SecDb.{Secdb, type_max, type_x509_cert, secdb_entry_size_from_type}
use efivar.SecDb.Valid.{IsSublist, signatures, Sorts}
use efivar.SecDb.Added.{Grown, efi_secdb_add_entry_or_secdb-Grown}
use efivar.SecDb.Parse.{
  secdb_entry_type_from_guid, add_bytes, add_found, note_size, next_corrected, parse_loop,
}

-- A signature of that type with that data is among those given, whoever its owner is.
abbrev pub Has : ℕ → List ℕ → List (ℕ × Signature) → Type 0
Has algorithm contents [] = ⊥
Has algorithm contents (t ∷ ts) =
    ((t.0 ≡ algorithm) × (t.1.contents ≡ contents)) ⊎ Has algorithm contents ts

pub Has-permᴰ :
    (a : ℕ) (c : List ℕ) {xs ys : List (ℕ × Signature)} → Permᴰ xs ys → Has a c xs → Has a c ys
Has-permᴰ a c Permᴰ.nil h = h
Has-permᴰ a c (Permᴰ.cons e p) (inl h) = inl (subst (λ t. (t.0 ≡ a) × (t.1.contents ≡ c)) e h)
Has-permᴰ a c (Permᴰ.cons e p) (inr h) = inr (Has-permᴰ a c p h)
Has-permᴰ a c (Permᴰ.swap e f) (inl h) = inr (inl (subst (λ t. (t.0 ≡ a) × (t.1.contents ≡ c)) e h))
Has-permᴰ a c (Permᴰ.swap e f) (inr (inl h)) = inl (subst (λ t. (t.0 ≡ a) × (t.1.contents ≡ c)) f h)
Has-permᴰ a c (Permᴰ.swap e f) (inr (inr h)) = inr (inr h)
Has-permᴰ a c (Permᴰ.trans p q) h = Has-permᴰ a c q (Has-permᴰ a c p h)

Has-middle :
    (a : ℕ) (pre : List (ℕ × Signature)) (s : Signature) (post : List (ℕ × Signature))
    → Has a s.contents (pre ++ ((a, s) ∷ post))
Has-middle a [] s post = inl (refl, refl)
Has-middle a (t ∷ pre) s post = inr (Has-middle a pre s post)

-- One signature more, by type and data.
Has-Grown :
    (old new : List (ℕ × Signature)) (algorithm : ℕ) (owner contents : List ℕ)
    → Grown old algorithm owner contents new
    → (a : ℕ) (c : List ℕ)
    → Has a c new ↔ Has a c ((algorithm, record { owner = owner; contents = contents }) ∷ old)
Has-Grown old new algorithm owner contents (inl p) a c =
    (Has-permᴰ a c p, Has-permᴰ a c (Permᴰ.symm p))
Has-Grown old new algorithm owner contents (inr (same, (pre, s, post, cut, eq))) a c = (
  λ h. inr (subst (Has a c) same h),
  λ h. elim h [
    | inl (ea, ec) ↦
        subst (λ b. Has b c new) ea
          (subst (λ d. Has algorithm d new) ec
            (subst (Has algorithm contents) (sym same) (
              subst (λ d. Has algorithm d old) eq
                (subst (Has algorithm s.contents) (sym cut) (Has-middle algorithm pre s post)))))
    | inr there ↦ subst (Has a c) (sym same) there
  ],
)

walk-cases :
    (turns : ℕ) (it : EslIter) (fs : List Found)
    → walk (suc turns) false it ≡ some (ok fs)
    → ((last : EslIter) × (esl_iter_next false it ≡ ok (iter_end last)) × (fs ≡ []))
      ⊎ ((next : EslIter) × (e : Entry) × (contents : List ℕ) × (rest : List Found) × (esl_iter_next
              false it
            ≡ ok (iter_next next e))
          × (load e.at e.len next.iter.buf ≡ ok contents)
          × (walk turns false next ≡ some (ok rest))
          × (fs
              ≡ record {
                new_list = e.new_list;
                type = e.type;
                signature = record { owner = e.owner; contents = contents };
              }
                ∷ rest))
unfolding walk
walk-cases turns it fs h = elim (Outcome-cases (esl_iter_next false it)) [
  | inr (inr e) ↦ absurd (ground (arith, e))
  | inr (inl (w, e)) ↦ absurd (ground (arith, e))
  | inl (iter_end last, e) ↦ inl (last, e, ground (arith, e))
  | inl (iter_next next e, eq) ↦ elim (Outcome-cases (load e.at e.len next.iter.buf)) [
    | inr (inr l) ↦ absurd (ground (arith, eq, l))
    | inr (inl (w, l)) ↦ absurd (ground (arith, eq, l))
    | inl (contents, l) ↦ elim (Option-cases (walk turns false next)) [
      | inl w ↦ absurd (ground (arith, eq, l, w))
      | inr (o, w) ↦ elim (Outcome-cases o) [
        | inr (inr x) ↦ absurd (ground (arith, eq, l, w, x))
        | inr (inl (y, x)) ↦ absurd (ground (arith, eq, l, w, x))
        | inl (rest, x) ↦
            inr (next, e, contents, rest, eq, l, w ∙ ap some x, ground (arith, eq, l, w, x))
      ]
    ]
  ]
]

-- What is found is the signatures given, with the GUIDs of their types.
abbrev pub Corresponds : (ℕ → List ℕ) → List Found → List (ℕ × Signature) → Type 0
Corresponds alg_guid [] [] = Unit {0}
Corresponds alg_guid [] (t ∷ ts) = ⊥
Corresponds alg_guid (f ∷ fs) [] = ⊥
Corresponds alg_guid (f ∷ fs) (t ∷ ts) =
    ((secdb_entry_type_from_guid alg_guid f.type ≡ some t.0) × (f.signature ≡ t.1))
    × Corresponds alg_guid fs ts

-- A signature of a type whose size is known, and of that size.
abbrev pub IsHash : ℕ × Signature → Type 0
IsHash t =
    (t.0 < type_max)
    × (t.0 ≢ type_x509_cert)
    × (length t.1.owner ≡ 16)
    × (0 < length t.1.contents)
    × (length t.1.contents + 16 ≡ secdb_entry_size_from_type t.0)

-- More than what the lists can grow by.
abbrev pub weight : List (ℕ × Signature) → ℕ
weight [] = 0
weight (t ∷ ts) = 44 + length t.1.contents + weight ts

note_size-lists : (db : Secdb) (b : Bool) (n : ℕ) → (note_size db b n).lists ≡ db.lists
unfolding note_size
note_size-lists db b n = ground arith

next_corrected-found :
    (it : EslIter) (n : Next) → esl_iter_next false it ≡ ok n → next_corrected it ≡ ok (n, false)
unfolding next_corrected
next_corrected-found it n e = rw (e, next_corrected) refl

module _ (alg_guid : ℕ → List ℕ) (qsort : (A : Type 0) → (A → A → Ordering) → List A → List A)
    (sorts : Sorts qsort) (spare : ℕ) where
  add_found-Grown :
      (db : Secdb) (type : List ℕ) (t : ℕ × Signature) (force : Bool) (more : ℕ)
      → IsHash t
      → secdb_entry_type_from_guid alg_guid type ≡ some t.0
      → 44 + length t.1.contents + more < 2 ^ 32
      → All (IsSublist (44 + length t.1.contents + more)) db.lists
      → (db' : Secdb) × (add_found alg_guid qsort db type t.1.owner (ok t.1.contents) force
          ≡ ok db')
        × All (IsSublist more) db'.lists
        × Grown (signatures db.lists) t.0 t.1.owner t.1.contents (signatures db'.lists)
  unfolding add_found
  add_found-Grown db type t force more h e small valid =
      let (db', added, valid', grown) =
        efi_secdb_add_entry_or_secdb-Grown qsort db t.1.owner t.1.contents t.0 more force sorts h.0
          h.2 h.3 small (record { hash_size = λ _. h.4; unlike = λ x. absurd (h.1 x) }) valid in
      (db', rw (e, add_found) (rw (added, add_bytes) refl), valid', grown)

  -- What is parsed behind a database: its signatures and those found, by type and data.
  abbrev pub Collected : List (ℕ × Signature) → List (ℕ × Signature) → List (ℕ × Signature) → Type 0
  Collected old ts new = (a : ℕ) (c : List ℕ) → Has a c new ↔ (Has a c ts ⊎ Has a c old)

  Collected-step :
      (old mid ts new : List (ℕ × Signature)) (t : ℕ × Signature)
      → Grown old t.0 t.1.owner t.1.contents mid
      → Collected mid ts new
      → Collected old (t ∷ ts) new
  Collected-step old mid ts new t grown h a c =
      let g = Has-Grown old mid t.0 t.1.owner t.1.contents grown a c in
      (
        λ x. elim ((h a c).0 x) [
          | inl y ↦ inl (inr y)
          | inr y ↦ elim (g.0 y) [ inl z ↦ inl (inl z) | inr z ↦ inr z ]
        ],
        λ x. (h a c).1 (elim x [
          | inl (inl z) ↦ inr (g.1 (inl z))
          | inl (inr y) ↦ inl y
          | inr z ↦ inr (g.1 (inr z))
        ]),
      )

  pub parse_loop-Collected :
      (turns : ℕ) (fs : List Found) (ts : List (ℕ × Signature)) (db : Secdb) (it : EslIter)
      (new sort : Bool)
      → walk turns false it ≡ some (ok fs)
      → Corresponds alg_guid fs ts
      → All IsHash ts
      → weight ts + spare < 2 ^ 32
      → All (IsSublist (weight ts + spare)) db.lists
      → (db' : Secdb) × (parse_loop alg_guid qsort turns db it new sort ≡ some (ok db'))
        × All (IsSublist spare) db'.lists
        × Collected (signatures db.lists) ts (signatures db'.lists)
  unfolding parse_loop
  parse_loop-Collected zero fs ts db it new sort w cs hs small valid = absurd (unfold walk in cc)
  parse_loop-Collected (suc turns) [] [] db it new sort w cs hs small valid =
      elim (walk-cases turns it [] w) [
        | inl (last, e, _) ↦ (
          db,
          rw (next_corrected-found it (iter_end last) e, parse_loop) refl,
          subst (λ n. All (IsSublist n) db.lists) (omega arith) valid,
          λ a c. (λ h. inr h, λ h. elim h [ inl x ↦ absurd x | inr x ↦ x ]),
        )
        | inr (next, e, contents, rest, _, _, _, cut) ↦ absurd (cc)
      ]
  parse_loop-Collected (suc turns) [] (t ∷ ts) db it new sort w cs hs small valid = absurd cs
  parse_loop-Collected (suc turns) (f ∷ fs) [] db it new sort w cs hs small valid = absurd cs
  parse_loop-Collected (suc turns) (f ∷ fs) (t ∷ ts) db it new sort w cs hs small valid =
      elim (walk-cases turns it (f ∷ fs) w) [
        | inl (last, e, cut) ↦ absurd (cc)
        | inr (next, e, contents, rest, found, loaded, others, cut) ↦
            let same_rest : rest ≡ fs = cc in
            let same_type : f.type ≡ e.type = cc in
            let same_owner : t.1.owner ≡ e.owner = cc (cs.0.1) in
            let same_contents : t.1.contents ≡ contents = cc (cs.0.1) in
            let force : Bool = (false || (e.new_list && not sort)) && not new in
            let noted : Secdb = note_size db new e.len in
            let (db1, added, valid1, grown) =
              add_found-Grown noted e.type t force (weight ts + spare) hs.0
                (subst (λ (g : List ℕ). secdb_entry_type_from_guid alg_guid g ≡ some t.0) same_type
                  cs.0.0)
                (omega arith)
                (subst (All (IsSublist (44 + length t.1.contents + (weight ts + spare))))
                  (sym (note_size-lists db new e.len))
                  (subst (λ n. All (IsSublist n) db.lists) (omega arith) valid)) in
            let (db2, parsed, valid2, collected) =
              parse_loop-Collected turns fs ts db1 next false sort
                (subst (λ r. walk turns false next ≡ some (ok r)) same_rest others) cs.1 hs.1
                (omega arith) valid1 in
            let added' : add_found alg_guid qsort noted e.type e.owner
                  (load e.at e.len next.iter.buf) force
                ≡ ok db1 =
              subst (λ o. add_found alg_guid qsort noted e.type e.owner o force ≡ ok db1)
                (ap ok same_contents ∙ sym loaded)
                (subst
                  (λ o. add_found alg_guid qsort noted e.type o (ok t.1.contents) force ≡ ok db1)
                  same_owner added) in
            (
              db2,
              rw (next_corrected-found it (iter_next next e) found, parse_loop) (rw added' parsed),
              valid2,
              Collected-step (signatures db.lists) (signatures db1.lists) ts (signatures db2.lists)
                  t
                  (subst
                    (λ l. Grown (signatures l) t.0 t.1.owner t.1.contents (signatures db1.lists))
                    (note_size-lists db new e.len) grown)
                  collected,
            )
      ]
