-- ===== src/EslIter/Steps.antt =====
-- src/esl-iter.c: the steps of the iterators in a well-formed signature list.
use native.Mathlib.Nat.{mul-mod_right, mul-div_cancel_left, mul-le-mul_left, mul-le-mul_right}
use efivar.Common.{
  ℕ, suc, ◌+◌, ◌-◌, ◌*◌, ◌/◌, ◌%◌, ◌^◌, ◌≤◌, ◌<◌, ◌≡◌, refl, ap, ◌∙◌, true, false, Bool, Option,
  some, List, [], ◌∷◌, ◌++◌, length, leb, ltb, ◌==◌, arith, length-append,
}
use efivar.Common.Words.{u32}
use efivar.Common.Outcome.{ok, ◌>>=◌}
use efivar.Common.Memory.{load}
use efivar.Variable.Import.{minus64}
use efivar.EslIter.{
  ListIter, EslIter, bound_list, list_at, advance, list_end, list_next, esl_list_iter_next,
  next_from, current, esl_list_signature_list_size, esl_list_header_size, esl_list_sig_size,
  esl_list_get_type, Entry, iter_end, iter_next, entry_at, first_entry, next_entry, esl_iter_next,
}
use efivar.EslIter.Layout.{Signature, SigList, list_size, IsSigList}
use efivar.EslIter.Places.{
  memory, load-type, load-list_size, load-header_size, load-sig_size, load-head, is_zero-head,
  load-owner, load-contents, sizes, esd, sig_size_fits,
}

-- The iterator in a list behind some bytes.
module _ (c : Bool) (l : SigList) (h : IsSigList l) (before : List ℕ) (back : List (List ℕ))
    (len : ℕ) (whole : length before + list_size l ≤ len) where
  abbrev pub at_list : ListIter
  at_list = record {
    buf = memory l h before back;
    len = len;
    offset = length before;
    esl = some (length before);
  }

  abbrev pub in_list : ℕ → ℕ → ℕ → EslIter
  in_list line esd i = record {
    iter = at_list;
    line = line;
    esd = esd;
    nmemb = length l.entries;
    i = i;
  }

  pub bound_fact :
      (esl : Option ℕ)
      → bound_list c (record at_list { esl = esl }) (length before)
        ≡ ok (record at_list { esl = esl })
  unfolding bound_list
  bound_fact esl = ground (arith, load-list_size l h before back)

  list_size_fact : esl_list_signature_list_size at_list ≡ ok (list_size l)
  unfolding esl_list_signature_list_size current
  list_size_fact = ground (arith, load-list_size l h before back)

  header_size_fact : esl_list_header_size at_list ≡ ok (length l.header)
  unfolding esl_list_header_size current
  header_size_fact = load-header_size l h before back

  sig_size_fact : 0 < l.sig_size → esl_list_sig_size at_list ≡ ok l.sig_size
  unfolding esl_list_sig_size current
  sig_size_fact pos = ground (arith, load-sig_size l h before back)

  type_fact : esl_list_get_type at_list ≡ ok l.type
  unfolding esl_list_get_type current
  type_fact = load-type l h before back

  pub list_at_fact :
      list_at c at_list (length before)
      ≡ ok (list_next at_list l.type (length before + (28 + length l.header)) l.sig_size)
  unfolding list_at
  list_at_fact = rw (load-head l h before back) (
      rw (is_zero-head l h before back) (
        rw (bound_fact (some (length before))) (
          rw (load-header_size l h before back)
            (rw (load-type l h before back) (rw (load-sig_size l h before back) refl)))))

  abbrev pub place : ℕ → ℕ
  place k = length before + (28 + length l.header) + l.sig_size * k

  abbrev pub entry : Bool → ℕ → Signature → Entry
  entry new_list p s = record {
    new_list = new_list;
    type = l.type;
    owner = s.owner;
    at = p + 16;
    len = l.sig_size - 16;
  }

  module _ (pre : List Signature) (s : Signature) (post : List Signature)
      (cut : l.entries ≡ pre ++ (s ∷ post)) where
    entry_fact :
        (line i : ℕ) (new_list : Bool)
        → entry_at (in_list line (place (length pre)) i) new_list l.sig_size
          ≡ ok (
              iter_next
                (in_list line (place (length pre)) i)
                (entry new_list (place (length pre)) s))
    unfolding entry_at minus64
    entry_fact line i new_list = rw type_fact (
        rw (load-owner l h before back pre s post cut) (
          ap
            (λ (n : ℕ). ok (
              iter_next (in_list line (place (length pre)) i)
                (record (entry new_list (place (length pre)) s) { len = n })))
            less))
      where
        less : minus64 l.sig_size 16 ≡ l.sig_size - 16
        less =
            omega (arith, (sizes l h before back pre s post cut).1, sig_size_fits l h before back)

    pub contents_fact :
        load (place (length pre) + 16) (l.sig_size - 16) (memory l h before back) ≡ ok s.contents
    contents_fact = load-contents l h before back pre s post cut

    inside_fact :
        (place (length pre + 1) ≤ len) × (0 < l.sig_size) × (length pre < length l.entries)
    inside_fact =
        let count : length l.entries ≡ length pre + suc (length post) =
          ap length cut ∙ length-append pre (s ∷ post) in
        (
          omega (
            arith,
            whole,
            count,
            mul-le-mul_left {m = length pre + 1} {n = length l.entries} l.sig_size
                (omega (arith, count)),
          ),
          omega (arith, (sizes l h before back pre s post cut).1),
          omega (arith, count),
        )

    pub count_small : length l.entries < 2 ^ 32
    count_small = omega (
      arith,
      h.fits,
      mul-le-mul_right {m = 1} {n = l.sig_size} (length l.entries) (omega (arith, inside_fact.1)),
    )

    -- The step to an entry that is not the first of its list.
    pub step_inside :
        (k line : ℕ)
        → length pre ≡ suc k
        → esl_iter_next c (in_list line (place k) k)
          ≡ ok (
              iter_next
                (in_list (line + 1) (place (length pre)) (length pre))
                (entry false (place (length pre)) s))
    unfolding esl_iter_next next_entry
    step_inside k line e = rw counter (
        rw other (
          rw (sig_size_fact inside_fact.1)
            (rw list_size_fact (rw within (rw moved (entry_fact (line + 1) (length pre) false))))))
      where
        counter : u32 (k + 1) ≡ length pre
        counter = omega (arith, e, inside_fact.2, count_small)

        other : (length pre == length l.entries) ≡ false
        other = ground (arith, inside_fact.2)

        moved : place k + l.sig_size ≡ place (length pre)
        moved = omega (arith, ap (λ (n : ℕ). l.sig_size * n) e)

        within : leb (place k + l.sig_size) len ≡ true
        within = ground (arith, moved, inside_fact.0)

  -- The step to the first entry of a list that the list iterator has moved to.
  pub step_first :
      (s : Signature) (post : List Signature) (it : EslIter)
      → l.entries ≡ s ∷ post
      → first_entry it at_list (length before + (28 + length l.header))
        ≡ ok (iter_next (in_list it.line (place 0) 0) (entry true (place 0) s))
  unfolding first_entry minus64
  step_first s post it cut =
      ap (first_entry it at_list) start
      ∙ (rw header_size_fact (
          rw (sig_size_fact (inside_fact [] s post cut).1) (
            rw list_size_fact
              (rw room (rw divides (rw count (entry_fact [] s post cut it.line 0 true)))))))
    where
      start : length before + (28 + length l.header) ≡ place 0
      start = omega arith

      room : minus64 (minus64 (list_size l) 28) (length l.header) ≡ l.sig_size * length l.entries
      room = omega (arith, h.fits)

      divides : (l.sig_size * length l.entries % l.sig_size == 0) ≡ true
      divides = ground (arith, mul-mod_right l.sig_size (length l.entries))

      count : l.sig_size * length l.entries / l.sig_size ≡ length l.entries
      count = mul-div_cancel_left (length l.entries) (inside_fact [] s post cut).1

  -- Behind the last entry the list iterator goes on: to the end of the buffer, or to the next list.
  pub last_entry :
      (k line : ℕ)
      → suc k ≡ length l.entries
      → length l.entries < 2 ^ 32
      → len < 2 ^ 32
      → esl_iter_next c (in_list line (place k) k) ≡ (
          advance c at_list (length before) >>= λ r. elim r [
            | list_end iter ↦
                ok (iter_end (record (in_list (line + 1) (place k) 0) { iter = iter }))
            | list_next iter type esd n ↦
                first_entry (in_list (line + 1) (place k) (suc k)) iter esd
          ])
  unfolding esl_iter_next esl_list_iter_next next_from
  last_entry k line e few small = rw counter (rw same (rw inside refl))
    where
      counter : u32 (k + 1) ≡ suc k
      counter = omega (arith, e, few)

      same : (suc k == length l.entries) ≡ true
      same = ground (arith, e)

      inside : ltb (u32 (length before)) len ≡ true
      inside = ground (arith, whole, small)

  pub advance_end :
      length before + list_size l ≡ len
      → len < 2 ^ 32
      → advance c at_list (length before)
        ≡ ok (list_end (record at_list { offset = length before + list_size l }))
  unfolding advance
  advance_end e small =
      rw (bound_fact (some (length before))) (rw (load-list_size l h before back) (rw at_end refl))
    where
      at_end : leb len (u32 (length before + list_size l)) ≡ true
      at_end = ground (arith, e, small)

  pub advance_next :
      length before + list_size l < len
      → len < 2 ^ 32
      → advance c at_list (length before)
        ≡ list_at c
            (record at_list {
              offset = length before + list_size l;
              esl = some (length before + list_size l);
            })
            (length before + list_size l)
  unfolding advance
  advance_next lt small =
      rw (bound_fact (some (length before))) (rw (load-list_size l h before back) (rw not_yet refl))
    where
      not_yet : leb len (u32 (length before + list_size l)) ≡ false
      not_yet = ground (arith, lt, small)
