-- ===== src/SecDb/Written.antt =====
-- src/secdb.c: what `efi_secdb_realize` writes of a database.
use efivar.Common.{
  ℕ, ◌+◌, ◌-◌, ◌*◌, ◌^◌, ◌≤◌, ◌<◌, ◌≡◌, refl, sym, ap, ap₂, ◌∙◌, subst, true, List, [], ◌∷◌, ◌++◌,
  length, All, arith, map, replicate, append-nil,
}
use efivar.Common.Outcome.{ok}
use efivar.Common.Memory.{concat, concat-append}
use efivar.Variable.Import.{minus64}
use efivar.EslIter.Layout.{Signature, SigList, Holds, blocks, all_blocks, encode}
use efivar.SecDb.{Sublist, Secdb, type_max}
use efivar.SecDb.Valid.{IsSublist}
use efivar.SecDb.Added.{has_owner-known}
use efivar.SecDb.Visit.{
  VisitorState, visitor_continue, align_up, secdb_realize_visitor, secdb_visit_entries, visit_lists,
  efi_secdb_visit_entries, efi_secdb_realize,
}
use efivar.SecDb.Realize.{front, inside, front_size}
use efivar.SecDb.Realized.{HasSpace, visit_entries-list}

-- The signature list that a list of the database stands for.
abbrev pub sig_list : (ℕ → List ℕ) → Sublist → SigList
sig_list alg_guid l = record {
  type = alg_guid l.algorithm;
  header = [];
  sig_size = l.sigsz;
  entries = l.entries;
}

-- For each list, the space that its start asks for is enough for its header and its first entry.
abbrev pub HasSpaces : ℕ → ℕ → List Sublist → Type 0
HasSpaces page_size pos [] = Unit {0}
HasSpaces page_size pos (l ∷ ls) =
    (pos + 28 + l.sigsz ≤ align_up (pos + 8 + l.sigsz) page_size)
    × HasSpaces page_size (pos + 28 + l.sigsz * length l.entries) ls

pub entry_size : (ss : ℕ) (es : List Signature) → 0 < length es → All (Holds ss) es → 16 ≤ ss
entry_size ss [] pos h = absurd (omega arith)
entry_size ss (s ∷ es) pos h = omega (arith, h.0.1)

pub le-product : (a n : ℕ) → 0 < n → a ≤ a * n
le-product a n pos = grind arith

pub concat-empty : (b : List ℕ) → concat ([] ∷ b ∷ []) ≡ b
unfolding concat
concat-empty b = append-nil b

encode-nil : (a : List ℕ) → a ≡ a ++ encode []
unfolding encode all_blocks concat
encode-nil a = sym (append-nil a)

concat-pair : (a b : List ℕ) → a ++ concat (b ∷ []) ≡ concat (a ∷ b ∷ [])
unfolding concat
concat-pair a b = refl

module _ (page_size : ℕ) (alg_guid : ℕ → List ℕ)
    (guid_sizes : (type : ℕ) → type < type_max → length (alg_guid type) ≡ 16) (spare : ℕ) where
  unfoldable pub at_end : List ℕ → List ℕ → ℕ → ℕ → VisitorState
  at_end done junk listnum esl = record {
    listnum = listnum;
    esl = esl;
    buf = concat (done ∷ junk ∷ []);
    pos = length done;
  }

  pub front-encode :
      (done : List ℕ) (l : Sublist) (ls : List SigList)
      → concat (
            front page_size alg_guid done l.algorithm l.sigsz
              (28 + l.sigsz * length l.entries)
              l.entries)
          ++ encode ls
        ≡ done ++ encode (sig_list alg_guid l ∷ ls)
  unfolding encode all_blocks blocks concat
  front-encode done l ls = sym (
      concat-append
        (front page_size alg_guid done l.algorithm l.sigsz (28 + l.sigsz * length l.entries)
          l.entries)
        (all_blocks ls))

  inside-at_end :
      (l : Sublist) (i : ℕ) (done tail : List ℕ)
      → IsSublist spare l
      → inside page_size alg_guid done l.algorithm l.sigsz l.entries
          (28 + l.sigsz * length l.entries)
          i
          tail
        ≡ at_end
            (concat (
              front page_size alg_guid done l.algorithm l.sigsz
                (28 + l.sigsz * length l.entries)
                l.entries))
            tail
            i
            (length done)
  unfolding inside at_end
  inside-at_end l i done tail v =
      let f =
        front page_size alg_guid done l.algorithm l.sigsz (28 + l.sigsz * length l.entries)
          l.entries in
      ap₂ (λ (b : List ℕ) (n : ℕ). record { listnum = i; esl = length done; buf = b; pos = n })
        (concat-append f (tail ∷ []) ∙ concat-pair (concat f) tail)
        (sym (
          front_size page_size alg_guid done l.algorithm l.sigsz l.entries
            (guid_sizes l.algorithm v.known) v.filled (28 + l.sigsz * length l.entries)))

  pub secdb_visit_entries-list :
      (l : Sublist) (i listnum esl : ℕ) (done junk : List ℕ)
      → IsSublist spare l
      → HasSpace page_size alg_guid guid_sizes (length done) l.sigsz
      → (tail : List ℕ) × (secdb_visit_entries
            (secdb_realize_visitor page_size alg_guid)
            l
            i
            (at_end done junk listnum esl)
          ≡ ok (
            visitor_continue,
            at_end
                (concat (
                  front page_size alg_guid done l.algorithm l.sigsz
                    (28 + l.sigsz * length l.entries)
                    l.entries))
                tail
                i
                (length done),
          ))
  unfolding secdb_visit_entries at_end
  secdb_visit_entries-list l i listnum esl done junk v space =
      let large : 16 ≤ l.sigsz = entry_size l.sigsz l.entries v.some_entry v.filled in
      let small : l.sigsz < 2 ^ 32 =
        omega (arith, v.sized, v.fits, le-product l.sigsz (length l.entries) v.some_entry) in
      let (tail, visited) =
        visit_entries-list page_size alg_guid guid_sizes done l.algorithm l.sigsz v.known small
          large l.entries i listnum esl junk v.some_entry v.filled (omega (arith, v.sized, v.fits))
          space in
      let datasz : minus64 l.sigsz 16 ≡ l.sigsz - 16 = unfold minus64 in omega arith in
      (
        tail,
        rw (has_owner-known l.algorithm v.known, secdb_visit_entries)
            (rw datasz (
              visited
              ∙ ap (λ (st : VisitorState). ok (visitor_continue, st))
                  (inside-at_end l i done tail v))),
      )

  -- The lists from one on, behind what is written.
  visit_lists-encode :
      (ls : List Sublist) (i listnum esl : ℕ) (done junk : List ℕ)
      → All (IsSublist spare) ls
      → HasSpaces page_size (length done) ls
      → (tail : List ℕ) × (last : ℕ) × (esl' : ℕ) × (visit_lists
            (secdb_realize_visitor page_size alg_guid)
            i
            ls
            (at_end done junk listnum esl)
          ≡ ok (true, at_end (done ++ encode (map (sig_list alg_guid) ls)) tail last esl'))
  unfolding visit_lists
  visit_lists-encode [] i listnum esl done junk h spaces = (
    junk,
    listnum,
    esl,
    ap (λ (d : List ℕ). ok (true, at_end d junk listnum esl)) (encode-nil done),
  )
  visit_lists-encode (l ∷ ls) i listnum esl done junk (v, h) (space, spaces) =
      let f =
        front page_size alg_guid done l.algorithm l.sigsz (28 + l.sigsz * length l.entries)
          l.entries in
      let size : length done + 28 + l.sigsz * length l.entries ≡ length (concat f) = sym (
        front_size page_size alg_guid done l.algorithm l.sigsz l.entries
          (guid_sizes l.algorithm v.known) v.filled (28 + l.sigsz * length l.entries)) in
      let (tail1, first) = secdb_visit_entries-list l i listnum esl done junk v space in
      let (tail2, last, esl', others) =
        visit_lists-encode ls (i + 1) i (length done) (concat f) tail1 h
          (subst (λ n. HasSpaces page_size n ls) size spaces) in
      (
        tail2,
        last,
        esl',
        rw first (
            others
            ∙ ap (λ (d : List ℕ). ok (true, at_end d tail2 last esl'))
                (front-encode done l (map (sig_list alg_guid) ls))),
      )

-- `efi_secdb_realize` of a database whose lists are well formed and which has the space that it needs: it succeeds, and what
-- it writes is the encoding of the lists as signature lists, in order, whose length it gives; the buffer may be longer.
pub efi_secdb_realize-encode :
    (page_size spare : ℕ) (alg_guid : ℕ → List ℕ) (db : Secdb)
    → ((type : ℕ) → type < type_max → length (alg_guid type) ≡ 16)
    → All (IsSublist spare) db.lists
    → HasSpaces page_size 0 db.lists
    → (rest : List ℕ) × (efi_secdb_realize page_size alg_guid db
        ≡ ok (
          encode (map (sig_list alg_guid) db.lists) ++ rest,
          length (encode (map (sig_list alg_guid) db.lists)),
        ))
unfolding efi_secdb_realize efi_secdb_visit_entries at_end concat
efi_secdb_realize-encode page_size spare alg_guid db guid_sizes h spaces =
    let (tail, last, esl, visited) =
      visit_lists-encode page_size alg_guid guid_sizes spare db.lists 0 0 0 []
        (replicate page_size 0) h spaces in
    (
      concat (tail ∷ []),
      rw
          (ap
              (λ (b : List ℕ).
                visit_lists (secdb_realize_visitor page_size alg_guid) 0 db.lists
                  (record { listnum = 0; esl = 0; buf = b; pos = 0 }))
              (sym (concat-empty (replicate page_size 0)))
            ∙ visited)
          refl,
    )
