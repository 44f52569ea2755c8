-- ===== src/EslIter/Walk.antt =====
-- src/esl-iter.c: a walk over a buffer of signature lists.
use native.Mathlib.Nat.{mul-le-mul}
use efivar.Common.{
  ℕ, zero, suc, ◌+◌, ◌-◌, ◌^◌, ◌≤◌, ◌<◌, ◌≡◌, refl, ap, sym, ◌∙◌, subst, true, Bool, none, some,
  List, [], ◌∷◌, ◌++◌, length, leb, ltb, map, All, arith, length-append, append_assoc,
}
use efivar.Common.Words.{u32}
use efivar.Common.Outcome.{ok}
use efivar.Common.Memory.{concat}
use efivar.EslIter.{
  EslIter, list_at, list_next, esl_list_iter_next, next_from, iter_next, esl_iter_next,
  esl_iter_new, esl_list_iter_new,
}
use efivar.EslIter.Layout.{
  Signature, SigList, Holds, list_size, IsSigList, blocks, all_blocks, encode,
}
use efivar.EslIter.Places.{memory, length-list, with_list, length-with_list, shift-memory}
use efivar.EslIter.Found.{walk, plain, found_in, found, length-found, first_of}
use efivar.EslIter.Steps.{
  at_list, in_list, place, entry, bound_fact, list_at_fact, contents_fact, count_small, step_inside,
  step_first, last_entry, advance_end, advance_next,
}

module _ (c : Bool) (len : ℕ) (small : len < 2 ^ 32) where
  first_list :
      (l : SigList) (h : IsSigList l) (back : List (List ℕ)) (whole : 0 + list_size l ≤ len)
      → esl_list_iter_next c
          (record { buf = memory l h [] back; len = len; offset = 0; esl = none })
        ≡ ok (
            list_next
              (at_list c l h [] back len whole)
              l.type
              (0 + (28 + length l.header))
              l.sig_size)
  unfolding esl_list_iter_next next_from
  first_list l h back whole =
      rw inside
        (rw (bound_fact c l h [] back len whole (some 0)) (list_at_fact c l h [] back len whole))
    where
      inside : ltb (u32 0) len ≡ true
      inside = ground (arith, whole)

  -- The iterator before its first step, and that step.
  abbrev starting : List ℕ → EslIter
  starting buf = record {
    iter = record { buf = buf; len = len; offset = 0; esl = none };
    line = 0;
    esd = 0;
    nmemb = 0;
    i = 2 ^ 32 - 1;
  }

  step_start :
      (l : SigList) (h : IsSigList l) (back : List (List ℕ)) (whole : 0 + list_size l ≤ len)
      (s : Signature) (post : List Signature) (cut : l.entries ≡ s ∷ post)
      → esl_iter_next c (starting (memory l h [] back))
        ≡ ok (
            iter_next
              (in_list c l h [] back len whole 1 (place c l h [] back len whole 0) 0)
              (entry c l h [] back len whole true (place c l h [] back len whole 0) s))
  unfolding esl_iter_next
  step_start l h back whole s post cut = rw (first_list l h back whole) (
      step_first c l h [] back len whole s post
        (record (starting (memory l h [] back)) { line = 1; i = 0 }) cut)

  -- The entries of a list, once the iterator has moved to it.
  walk_first :
      (ls : List SigList) (l : SigList) (h : IsSigList l) (before : List ℕ) (s : Signature)
      (post : List Signature) (cut : l.entries ≡ s ∷ post)
      (whole : length before + list_size l ≤ len) (it : EslIter) (line turns : ℕ)
      → esl_iter_next c it
        ≡ ok (
            iter_next
              (in_list c l h before
                (all_blocks ls)
                len
                whole
                line
                (place c l h before (all_blocks ls) len whole 0)
                0)
              (entry c l h before
                (all_blocks ls)
                len
                whole
                true
                (place c l h before (all_blocks ls) len whole 0)
                s))
      → walk turns c (
          in_list c l h before
            (all_blocks ls)
            len
            whole
            line
            (place c l h before (all_blocks ls) len whole 0)
            0)
        ≡ some (ok (map (plain l) post ++ found ls))
      → walk (suc turns) c it ≡ some (ok (found (l ∷ ls)))
  unfolding walk found found_in
  walk_first ls l h before s post cut whole it line turns first tail =
      rw (first, walk)
        (rw (contents_fact c l h before (all_blocks ls) len whole [] s post cut)
          (rw tail (rw cut refl)))

  -- The step from the last entry of a list to the first one of the next.
  module _ (l : SigList) (h : IsSigList l) (before : List ℕ) (l' : SigList) (h' : IsSigList l')
      (back : List (List ℕ)) (whole : length before + list_size l ≤ len)
      (whole' : length (with_list l h before) + list_size l' ≤ len) where
    moved :
        list_at c
          (record {
            buf = memory l h before (blocks l' back);
            len = len;
            offset = length before + list_size l;
            esl = some (length before + list_size l);
          })
          (length before + list_size l)
        ≡ list_at c
            (at_list c l' h' (with_list l h before) back len whole')
            (length (with_list l h before))
    moved =
        let buffers : memory l h before (blocks l' back)
            ≡ memory l' h' (with_list l h before) back =
          shift-memory l h before (blocks l' back) in
        let places : length before + list_size l ≡ length (with_list l h before) =
          sym (length-with_list l h before) in
        λ i.
          list_at c
            (record { buf = buffers i; len = len; offset = places i; esl = some (places i) })
            (places i)

    step_next :
        (s : Signature) (post : List Signature) (cut : l'.entries ≡ s ∷ post) (k line : ℕ)
        → suc k ≡ length l.entries
        → length l.entries < 2 ^ 32
        → esl_iter_next c (
            in_list c l h before
              (blocks l' back)
              len
              whole
              line
              (place c l h before (blocks l' back) len whole k)
              k)
          ≡ ok (
              iter_next
                (in_list c l' h'
                  (with_list l h before)
                  back
                  len
                  whole'
                  (line + 1)
                  (place c l' h' (with_list l h before) back len whole' 0)
                  0)
                (entry c l' h'
                  (with_list l h before)
                  back
                  len
                  whole'
                  true
                  (place c l' h' (with_list l h before) back len whole' 0)
                  s))
    step_next s post cut k line last few =
        rw (last_entry c l h before (blocks l' back) len whole k line last few small) (
          rw
            (advance_next c l h before (blocks l' back) len whole
              (omega (arith, whole', length-with_list l h before)) small)
            (rw moved (
              rw (list_at_fact c l' h' (with_list l h before) back len whole') (
                step_first c l' h' (with_list l h before) back len whole' s post
                  (in_list c l h before (blocks l' back) len whole (line + 1)
                    (place c l h before (blocks l' back) len whole k) (suc k))
                  cut))))

  -- What is found from an entry of a list on.
  walk_inside :
      (ls : List SigList) (post : List Signature) (l : SigList) (h : IsSigList l)
      (hs : All IsSigList ls) (before : List ℕ) (pre : List Signature) (s : Signature)
      (cut : l.entries ≡ pre ++ (s ∷ post)) (line turns : ℕ)
      (whole : length before + list_size l ≤ len)
      → length (memory l h before (all_blocks ls)) ≡ len
      → length post + length (found ls) < turns
      → walk turns c (
          in_list c l h before
            (all_blocks ls)
            len
            whole
            line
            (place c l h before (all_blocks ls) len whole (length pre))
            (length pre))
        ≡ some (ok (map (plain l) post ++ found ls))
  unfolding walk found all_blocks concat
  walk_inside ls post l h hs before pre s cut line zero whole full lt = absurd (omega arith)
  walk_inside ls (s' ∷ post) l h hs before pre s cut line (suc turns) whole full lt =
      let back = all_blocks ls in
      let cut' : l.entries ≡ (pre ++ (s ∷ [])) ++ (s' ∷ post) =
        cut ∙ sym (append_assoc pre (s ∷ []) (s' ∷ post)) in
      let more : length (pre ++ (s ∷ [])) ≡ suc (length pre) =
        omega (arith, length-append pre (s ∷ [])) in
      rw
        (
          step_inside c l h before back len whole (pre ++ (s ∷ [])) s' post cut' (length pre) line
              more,
          walk,
        )
        (rw (contents_fact c l h before back len whole (pre ++ (s ∷ [])) s' post cut') (
          rw
            (walk_inside ls post l h hs before (pre ++ (s ∷ [])) s' cut' (line + 1) turns whole full
              (omega arith))
            refl))
  walk_inside [] [] l h hs before pre s cut line (suc turns) whole full lt =
      let last : suc (length pre) ≡ length l.entries =
        omega (arith, ap length cut, length-append pre (s ∷ [])) in
      let few = count_small c l h before (all_blocks []) len whole pre s [] cut in
      let at_end : length before + list_size l ≡ len =
        omega
          (arith, full, length-append before (concat (blocks l [])), length-list l h before []) in
      rw (last_entry c l h before [] len whole (length pre) line last few small, walk)
        (rw (advance_end c l h before [] len whole at_end small) refl)
  walk_inside (l' ∷ ls) [] l h hs before pre s cut line (suc turns) whole full lt =
      let h' = hs.0 in
      let back = all_blocks ls in
      let before' = with_list l h before in
      let (s', post', cut') = first_of l'.entries h'.some_entry in
      let last : suc (length pre) ≡ length l.entries =
        omega (arith, ap length cut, length-append pre (s ∷ [])) in
      let few = count_small c l h before (blocks l' back) len whole pre s [] cut in
      let whole' : length before' + list_size l' ≤ len = omega (
        arith,
        full,
        length-append before (concat (blocks l (blocks l' back))),
        length-list l h before (blocks l' back),
        length-list l' h' before' back,
        length-with_list l h before,
      ) in
      let full' : length (memory l' h' before' back) ≡ len =
        ap length (sym (shift-memory l h before (blocks l' back))) ∙ full in
      walk_first ls l' h' before' s' post' cut' whole'
        (in_list c l h before (blocks l' back) len whole line
          (place c l h before (blocks l' back) len whole (length pre)) (length pre))
        (line + 1) turns
        (step_next l h before l' h' back whole whole' s' post' cut' (length pre) line last few)
        (walk_inside ls post' l' h' hs.1 before' [] s' cut' (line + 1) turns whole' full'
          (omega (arith, lt, length-found l' ls, ap length cut')))

list_size-min : (l : SigList) → IsSigList l → 44 ≤ list_size l
list_size-min l h =
    let (s, post, cut) = first_of l.entries h.some_entry in
    let sized : 16 ≤ l.sig_size =
      omega (arith, (subst (All (Holds l.sig_size)) cut h.entry_sizes).0) in
    omega (
      arith,
      mul-le-mul {n₁ = 16} {m₁ = 1} {n₂ = l.sig_size} {m₂ = length l.entries} sized
          (omega (arith, h.some_entry)),
    )

-- A walk with `esl_iter_next` over a buffer of signature lists, of fewer than 2^32 bytes, finds all entries of all lists in
-- order, the first of each list marked as such, and then the end, whether sizes are to be corrected or not. There is at
-- least one list, each has at least one entry, all entries of a list are of its size, and the sizes fit their fields;
-- the walk finishes within one turn more than there are entries.
pub esl_iter_next-walk :
    (c : Bool) (ls : List SigList) (turns : ℕ)
    → All IsSigList ls
    → 0 < length ls
    → length (encode ls) < 2 ^ 32
    → length (found ls) < turns
    → (it : EslIter) × (esl_iter_new (encode ls) (length (encode ls)) ≡ ok it)
      × (walk turns c it ≡ some (ok (found ls)))
unfolding encode all_blocks concat esl_iter_new esl_list_iter_new
esl_iter_next-walk c [] turns hs pos small lt = absurd (omega arith)
esl_iter_next-walk c (l ∷ ls) zero hs pos small lt = absurd (omega arith)
esl_iter_next-walk c (l ∷ ls) (suc turns) hs pos small lt =
    (starting c len small (encode (l ∷ ls)), started, walked)
  where
    len : ℕ
    len = length (encode (l ∷ ls))

    len_eq : len ≡ list_size l + length (concat (all_blocks ls))
    len_eq = length-list l hs.0 [] (all_blocks ls)

    whole : 0 + list_size l ≤ len
    whole = omega (arith, len_eq)

    started : esl_iter_new (encode (l ∷ ls)) len ≡ ok (starting c len small (encode (l ∷ ls)))
    started = rw large refl
      where
        large : leb 44 len ≡ true
        large = ground (arith, whole, list_size-min l hs.0)

    walked :
        walk (suc turns) c (starting c len small (encode (l ∷ ls))) ≡ some (ok (found (l ∷ ls)))
    walked =
        let (s, post, cut) = first_of l.entries hs.0.some_entry in
        walk_first c len small ls l hs.0 [] s post cut whole
          (starting c len small (encode (l ∷ ls))) 1 turns
          (step_start c len small l hs.0 (all_blocks ls) whole s post cut)
          (walk_inside c len small ls post l hs.0 hs.1 [] [] s cut 1 turns whole refl
            (omega (arith, lt, length-found l ls, ap length cut)))
