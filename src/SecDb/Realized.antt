-- ===== src/SecDb/Realized.antt =====
-- src/secdb.c: the bytes that `efi_secdb_realize` writes.
use efivar.Common.{
  ℕ, ◌+◌, ◌-◌, ◌*◌, ◌^◌, ◌≤◌, ◌<◌, ◌≡◌, refl, sym, ap, ap₂, ◌∙◌, true, false, List, [], ◌∷◌, ◌++◌,
  length, All, All-append, arith, take, drop, replicate, append_assoc, append-nil, length-drop, ltb,
  leb, ◌==◌, ◌||◌,
}
use efivar.Common.Words.{u64}
use efivar.Common.Outcome.{ok}
use efivar.Common.Memory.{
  le_bytes, concat, store-block, length-concat, length-le_bytes, pieces, concat-pieces,
  pieces-Sized,
}
use efivar.EslIter.Layout.{Signature, Holds, sig_blocks}
use efivar.SecDb.{type_max}
use efivar.SecDb.Added.{has_owner-known}
use efivar.SecDb.Visit.{
  VisitorState, visitor_continue, align_up, grow, start_list, secdb_realize_visitor, visit_entries,
}
use efivar.SecDb.Realize.{
  length-replicate, concat-tail, memory, inside, write_entry-memory, grow-blocks,
  extend_list-inside,
}

module _ (page_size : ℕ) (alg_guid : ℕ → List ℕ)
    (guid_sizes : (type : ℕ) → type < type_max → length (alg_guid type) ≡ 16) where
  -- The space that the start of a list asks for is enough for its header and its first entry.
  abbrev pub HasSpace : ℕ → ℕ → Type 0
  HasSpace pos ss = pos + 28 + ss ≤ align_up (pos + 8 + ss) page_size

  module _ (done : List ℕ) (algorithm ss : ℕ) (known : algorithm < type_max) (fits32 : ss < 2 ^ 32)
      (large : 16 ≤ ss) where
    g : length (alg_guid algorithm) ≡ 16
    g = guid_sizes algorithm known

    start_list-blocks :
        (z0 z1 z2 z3 rest : List ℕ) (listnum esl allocsz : ℕ) (junk : List ℕ)
        → length z0 ≡ 16
        → length z1 ≡ 4
        → length z2 ≡ 4
        → length z3 ≡ 4
        → align_up (length done + 8 + ss) page_size ≡ allocsz
        → grow (length done) allocsz (concat (done ∷ junk ∷ []))
          ≡ concat (done ∷ z0 ∷ z1 ∷ z2 ∷ z3 ∷ rest ∷ [])
        → start_list page_size alg_guid algorithm ss (record {
          listnum = listnum;
          esl = esl;
          buf = concat (done ∷ junk ∷ []);
          pos = length done;
        })
          ≡ ok (inside page_size alg_guid done algorithm ss [] 28 listnum rest)
    unfolding start_list inside sig_blocks
    start_list-blocks z0 z1 z2 z3 rest listnum esl allocsz junk p0 p1 p2 p3 pa pg =
        let t = alg_guid algorithm in
        rw pa (
          rw pg (
            rw
              (store-block (length done) (done ∷ []) z0 t (z1 ∷ z2 ∷ z3 ∷ rest ∷ [])
                (omega (arith, length-concat (done ∷ []))) (omega (arith, g, p0)))
              (rw
                (store-block (length done + 16) (done ∷ t ∷ []) z1 (le_bytes 4 28)
                  (z2 ∷ z3 ∷ rest ∷ []) (omega (arith, g, length-concat (done ∷ t ∷ [])))
                  (omega (arith, length-le_bytes 4 28, p1)))
                (rw
                  (store-block (length done + 20) (done ∷ t ∷ le_bytes 4 28 ∷ []) z2 (le_bytes 4 0)
                    (z3 ∷ rest ∷ [])
                    (omega (
                      arith,
                      g,
                      length-le_bytes 4 28,
                      length-concat (done ∷ t ∷ le_bytes 4 28 ∷ []),
                    ))
                    (omega (arith, length-le_bytes 4 0, p2)))
                  (rw
                    (store-block (length done + 24) (done ∷ t ∷ le_bytes 4 28 ∷ le_bytes 4 0 ∷ [])
                      z3 (le_bytes 4 ss) (rest ∷ [])
                      (omega (
                        arith,
                        g,
                        length-le_bytes 4 28,
                        length-le_bytes 4 0,
                        length-concat (done ∷ t ∷ le_bytes 4 28 ∷ le_bytes 4 0 ∷ []),
                      ))
                      (omega (arith, length-le_bytes 4 ss, p3)))
                    (ap
                      (λ (n : ℕ). ok (record {
                        listnum = listnum;
                        esl = length done;
                        buf = memory page_size alg_guid done algorithm ss 28 [] rest;
                        pos = n;
                      }))
                      (omega arith)))))))

    start_list-inside :
        (listnum esl : ℕ) (junk : List ℕ)
        → HasSpace (length done) ss
        → (more : List ℕ) × (start_list page_size alg_guid algorithm ss (record {
          listnum = listnum;
          esl = esl;
          buf = concat (done ∷ junk ∷ []);
          pos = length done;
        })
            ≡ ok (inside page_size alg_guid done algorithm ss [] 28 listnum more))
          × (ss ≤ length more)
    unfolding pieces
    start_list-inside listnum esl junk space =
        let allocsz : ℕ = align_up (length done + 8 + ss) page_size in
        let zeros : List ℕ = replicate (allocsz - length done) 0 in
        let sizes =
          pieces-Sized (16 ∷ 4 ∷ 4 ∷ 4 ∷ []) zeros
            (omega (arith, space, length-replicate (allocsz - length done))) in
        (
          drop 28 zeros,
          start_list-blocks (take 16 zeros) (take 4 (drop 16 zeros))
              (take 4 (drop 4 (drop 16 zeros))) (take 4 (drop 4 (drop 4 (drop 16 zeros))))
              (drop 28 zeros) listnum esl allocsz junk sizes.0 sizes.1.0 sizes.1.1.0 sizes.1.1.1.0
              refl
              (grow-blocks page_size alg_guid (length done) allocsz (done ∷ []) junk
                  (omega (arith, length-concat (done ∷ [])))
                ∙ ap (λ (t : List ℕ). concat (done ∷ t ∷ []))
                    (sym (concat-pieces (16 ∷ 4 ∷ 4 ∷ 4 ∷ []) zeros))
                ∙ concat-tail page_size alg_guid (done ∷ []) _),
          omega (arith, space, length-replicate (allocsz - length done), length-drop 28 zeros),
        )

    -- The first entry of a list.
    visitor-first :
        (s : Signature) (i listnum esl : ℕ) (junk : List ℕ)
        → Holds ss s
        → 28 + ss < 2 ^ 32
        → HasSpace (length done) ss
        → (tail : List ℕ) × (secdb_realize_visitor page_size alg_guid i 0 s.owner algorithm
              s.contents
              (ss - 16)
              (record {
                listnum = listnum;
                esl = esl;
                buf = concat (done ∷ junk ∷ []);
                pos = length done;
              })
            ≡ ok (
              visitor_continue,
              inside page_size alg_guid done algorithm ss (s ∷ []) (28 + ss) i tail,
            ))
    unfolding secdb_realize_visitor
    visitor-first s i listnum esl junk hs fits space =
        let (more, started, room) = start_list-inside listnum esl junk space in
        let whole : u64 (ss - 16 + 16) ≡ ss = omega arith in
        let always : (ltb listnum i || true) ≡ true = ground arith in
        let unknown : leb type_max algorithm ≡ false = ground arith in
        (
          drop ss more,
          rw (has_owner-known algorithm known) (
              rw whole (
                rw always (
                  rw unknown (
                    rw started (
                      rw
                        (write_entry-memory page_size alg_guid done algorithm ss [] g tt s hs 28
                          listnum fits more room)
                        (unfold inside in refl)))))),
        )

    visitor-next :
        (s : Signature) (pre : List Signature) (i j size : ℕ) (tail : List ℕ)
        → All (Holds ss) pre
        → Holds ss s
        → 0 < j
        → size + ss < 2 ^ 32
        → (tail' : List ℕ) × (secdb_realize_visitor page_size alg_guid i j s.owner algorithm
              s.contents
              (ss - 16)
              (inside page_size alg_guid done algorithm ss pre size i tail)
            ≡ ok (
              visitor_continue,
              inside page_size alg_guid done algorithm ss (pre ++ (s ∷ [])) (size + ss) i tail',
            ))
    unfolding secdb_realize_visitor
    visitor-next s pre i j size tail hp hs pos fits =
        let (more, extended, room) =
          extend_list-inside page_size alg_guid done algorithm ss size i pre tail g hp in
        let whole : u64 (ss - 16 + 16) ≡ ss = omega arith in
        let st : VisitorState = inside page_size alg_guid done algorithm ss pre size i tail in
        let later : (ltb (st.listnum) i || j == 0) ≡ false = unfold inside in ground arith in
        (
          drop ss more,
          rw (has_owner-known algorithm known) (
              rw whole (
                rw later (
                  rw extended (
                    rw
                      (write_entry-memory page_size alg_guid done algorithm ss pre g hp s hs size i
                        fits more room)
                      (unfold inside in refl))))),
        )

    -- The entries of a list behind the first ones.
    visit_entries-inside :
        (post pre : List Signature) (i j size : ℕ) (tail : List ℕ)
        → All (Holds ss) pre
        → All (Holds ss) post
        → 0 < j
        → size + ss * length post < 2 ^ 32
        → (tail' : List ℕ) × (visit_entries
              (secdb_realize_visitor page_size alg_guid)
              i
              j
              algorithm
              (ss - 16)
              post
              (inside page_size alg_guid done algorithm ss pre size i tail)
            ≡ ok (
              visitor_continue,
              inside page_size alg_guid done algorithm ss
                  (pre ++ post)
                  (size + ss * length post)
                  i
                  tail',
            ))
    unfolding visit_entries
    visit_entries-inside [] pre i j size tail hp hs pos fits = (
      tail,
      ap₂
          (λ (p : List Signature) (n : ℕ).
            ok (visitor_continue, inside page_size alg_guid done algorithm ss p n i tail))
          (sym (append-nil pre)) (omega arith),
    )
    visit_entries-inside (s ∷ post) pre i j size tail hp hs pos fits =
        let count : ss * length (s ∷ post) ≡ ss + ss * length post = grind arith in
        let (tail1, first) =
          visitor-next s pre i j size tail hp hs.0 pos (omega (arith, fits, count)) in
        let (tail2, others) =
          visit_entries-inside post (pre ++ (s ∷ [])) i (j + 1) (size + ss) tail1
            (All-append (Holds ss) pre (s ∷ []) hp (hs.0, tt)) hs.1 (omega arith)
            (omega (arith, fits, count)) in
        (
          tail2,
          rw first (
              others
              ∙ ap₂
                  (λ (p : List Signature) (n : ℕ).
                    ok (visitor_continue, inside page_size alg_guid done algorithm ss p n i tail2))
                  (append_assoc pre (s ∷ []) post) (omega (arith, count))),
        )

    pub visit_entries-list :
        (entries : List Signature) (i listnum esl : ℕ) (junk : List ℕ)
        → 0 < length entries
        → All (Holds ss) entries
        → 28 + ss * length entries < 2 ^ 32
        → HasSpace (length done) ss
        → (tail : List ℕ) × (visit_entries
              (secdb_realize_visitor page_size alg_guid)
              i
              0
              algorithm
              (ss - 16)
              entries
              (record {
                listnum = listnum;
                esl = esl;
                buf = concat (done ∷ junk ∷ []);
                pos = length done;
              })
            ≡ ok (
              visitor_continue,
              inside page_size alg_guid done algorithm ss entries (28 + ss * length entries) i tail,
            ))
    unfolding visit_entries
    visit_entries-list [] i listnum esl junk pos hs fits space = absurd (omega arith)
    visit_entries-list (s ∷ post) i listnum esl junk pos hs fits space =
        let count : ss * length (s ∷ post) ≡ ss + ss * length post = grind arith in
        let (tail1, first) =
          visitor-first s i listnum esl junk hs.0 (omega (arith, fits, count)) space in
        let (tail2, others) =
          visit_entries-inside post (s ∷ []) i (0 + 1) (28 + ss) tail1 (hs.0, tt) hs.1 (omega arith)
            (omega (arith, fits, count)) in
        (
          tail2,
          rw first (
              others
              ∙ ap
                  (λ (n : ℕ). ok (
                    visitor_continue,
                    inside page_size alg_guid done algorithm ss (s ∷ post) n i tail2,
                  ))
                  (omega (arith, count))),
        )
