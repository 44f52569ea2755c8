-- ===== src/EslIter/Bounds.antt =====
-- src/esl-iter.c: where the list iterator may stand, whatever the buffer holds.
use efivar.Common.{
  ℕ, ◌+◌, ◌-◌, ◌^◌, ◌≤◌, ◌<◌, ◌≡◌, ◌⊎◌, inl, inr, refl, ap, sym, subst, ◌∙◌, Bool, Option, none,
  some, List, length, ltb, leb, ◌&&◌, arith, Bool-cases, if-true, if-false,
}
use efivar.Common.Words.{u32}
use efivar.Common.Outcome.{ok, einval, >>=-returned, >>-returned, guard}
use efivar.Common.Memory.{le_bytes, load, load_le, store, load_le-store}
use efivar.EslIter.{
  ListIter, bound_list, list_at, advance, list_next, esl_list_iter_new, esl_list_iter_next,
  next_from, is_zero,
}

-- The list at `esl` ends within the length given.
pub record Fitted (it : ListIter) (esl : ℕ) : Type 0 where
  pub size : ℕ
  pub size_there : load_le (esl + 16) 4 it.buf ≡ ok size
  pub ends : it.offset + size ≤ it.len

-- What an operation leaves as it is.
record Kept (old new : ListIter) : Type 0 where
  same_len : new.len ≡ old.len
  same_offset : new.offset ≡ old.offset
  same_esl : new.esl ≡ old.esl
  same_room : length new.buf ≡ length old.buf

module _ (c : Bool) (it : ListIter) (esl : ℕ) where
  uncorrected :
      (size : ℕ)
      → load_le (esl + 16) 4 it.buf ≡ ok size
      → it.offset + size ≤ it.len
      → Kept it it × Fitted it esl
  uncorrected size there ends = (
    record { same_len = refl; same_offset = refl; same_esl = refl; same_room = refl },
    record { size = size; size_there = there; ends = ends },
  )

  corrected :
      (buf : List ℕ)
      → it.len < 2 ^ 32
      → it.offset ≤ it.len
      → store (esl + 16) (le_bytes 4 (it.len - it.offset)) it.buf ≡ ok buf
      → Kept it (record it { buf = buf }) × Fitted (record it { buf = buf }) esl
  corrected buf small inside stored =
      let (there, room) =
        load_le-store (esl + 16) 4 (it.len - it.offset) it.buf buf (omega arith) stored in
      (
        record { same_len = refl; same_offset = refl; same_esl = refl; same_room = room },
        record { size = it.len - it.offset; size_there = there; ends = omega arith },
      )

  bound_list-Fitted :
      (it' : ListIter)
      → it.len < 2 ^ 32
      → it.offset ≤ it.len
      → bound_list c it esl ≡ ok it'
      → Kept it it' × Fitted it' esl
  unfolding bound_list
  bound_list-Fitted it' small inside e =
      let left = it.len - it.offset in
      let (size, there, rest) = >>=-returned _ _ (load_le (esl + 16) 4 it.buf) e in
      elim (Bool-cases (leb size left)) [
        | inl fits ↦
            let same : it ≡ it' = ground (arith, fits, rest) in
            subst (λ (r : ListIter). Kept it r × Fitted r esl) same
              (uncorrected size there (ground (arith, fits)))
        | inr large ↦ elim (Bool-cases (c && ltb 0 left)) [
          | inl fix ↦
              let (buf, stored, done) =
                >>=-returned _ _ (store (esl + 16) (le_bytes 4 left) it.buf)
                  (sym (if-false _ _ _ large ∙ if-true _ _ _ fix) ∙ rest) in
              let same : record it { buf = buf } ≡ it' = ground (arith, done) in
              subst (λ (r : ListIter). Kept it r × Fitted r esl) same
                (corrected buf small inside stored)
          | inr no_fix ↦ absurd (ground (arith, large, no_fix, rest))
        ]
      ]

  list_at-bounded :
      (it' : ListIter) (type : List ℕ) (esd n : ℕ)
      → list_at c it esl ≡ ok (list_next it' type esd n)
      → bound_list c it esl ≡ ok it'
  unfolding list_at
  list_at-bounded it' type esd n e =
      let (head, _, e1) = >>=-returned _ _ (load esl 28 it.buf) e in
      elim (Bool-cases (is_zero head)) [
        | inl zero_head ↦ absurd (ground (arith, zero_head, e1))
        | inr more ↦
            let (bounded, fact, e2) =
              >>=-returned _ _ (bound_list c it esl) (sym (if-false _ _ _ more) ∙ e1) in
            let (size, _, e3) = >>=-returned _ _ (load_le (esl + 20) 4 bounded.buf) e2 in
            let (kind, _, e4) = >>=-returned _ _ (load esl 16 bounded.buf) e3 in
            let (sig, _, e5) = >>=-returned _ _ (load_le (esl + 24) 4 bounded.buf) e4 in
            let same : bounded ≡ it' = ground (arith, e5) in fact ∙ ap (λ (r : ListIter). ok r) same
      ]

-- The lists at which `esl_list_iter_next` can stop in a buffer, after any number of calls.
pub data Reach (c : Bool) (buf : List ℕ) (len : ℕ) : ListIter → Type 0 where
  start : (it : ListIter) → esl_list_iter_new buf len ≡ ok it → Reach c buf len it
  step :
      (it it' : ListIter) (type : List ℕ) (esd n : ℕ)
      → Reach c buf len it
      → esl_list_iter_next c it ≡ ok (list_next it' type esd n)
      → Reach c buf len it'

-- The iterator is at no list yet, or at one that ends within the buffer, whose length is the one given.
pub record IsInside (buf : List ℕ) (len : ℕ) (it : ListIter) : Type 0 where
  pub same_len : it.len ≡ len
  pub same_room : length it.buf ≡ length buf
  pub at : ((it.esl ≡ none) × (it.offset ≡ 0)) ⊎ ((it.esl ≡ some it.offset) × Fitted it it.offset)

module _ (c : Bool) (buf : List ℕ) (len : ℕ) (small : len < 2 ^ 32) where
  -- The end of both ways to the next list.
  at-IsInside :
      (it it' : ListIter) (type : List ℕ) (esd n : ℕ)
      → it.len ≡ len
      → length it.buf ≡ length buf
      → it.offset ≤ len
      → it.esl ≡ some it.offset
      → list_at c it it.offset ≡ ok (list_next it' type esd n)
      → IsInside buf len it'
  at-IsInside it it' type esd n p q inside r e =
      let (kept, fitted) =
        bound_list-Fitted c it it.offset it' (omega (arith, p, small)) (omega (arith, p, inside))
          (list_at-bounded c it it.offset it' type esd n e) in
      record {
        same_len = kept.same_len ∙ p;
        same_room = kept.same_room ∙ q;
        at = inr (
          kept.same_esl ∙ r ∙ ap (λ (k : ℕ). some k) (sym kept.same_offset),
          subst (Fitted it') (sym kept.same_offset) fitted,
        );
      }

  offset_inside : (it : ListIter) → IsInside buf len it → it.offset ≤ it.len
  offset_inside it h = elim h.at [
    | inl (_, zero_offset) ↦ omega (arith, zero_offset)
    | inr (_, fitted) ↦ omega (arith, fitted.ends)
  ]

  from-IsInside :
      (it it' : ListIter) (esl : Option ℕ) (type : List ℕ) (esd n : ℕ)
      → it.esl ≡ esl
      → IsInside buf len it
      → next_from c it esl ≡ ok (list_next it' type esd n)
      → IsInside buf len it'
  unfolding next_from advance
  from-IsInside it it' none type esd n p h e =
      let zero_offset : it.offset ≡ 0 = ground (arith, p, h.at) in
      let (bounded, b, rest) = >>=-returned _ _ (bound_list c (record it { esl = some 0 }) 0) e in
      let (kept, _) =
        bound_list-Fitted c (record it { esl = some 0 }) 0 bounded
          (omega (arith, h.same_len, small)) (omega (arith, zero_offset)) b in
      let zero_bounded : bounded.offset ≡ 0 = kept.same_offset ∙ zero_offset in
      at-IsInside bounded it' type esd n (kept.same_len ∙ h.same_len) (kept.same_room ∙ h.same_room)
        (omega (arith, zero_bounded)) (kept.same_esl ∙ ap (λ (k : ℕ). some k) (sym zero_bounded))
        (subst (λ (k : ℕ). list_at c bounded k ≡ ok (list_next it' type esd n)) (sym zero_bounded)
          rest)
  from-IsInside it it' (some esl) type esd n p h e =
      let (bounded, b, rest) = >>=-returned _ _ (bound_list c it esl) e in
      let (kept, fitted) =
        bound_list-Fitted c it esl bounded (omega (arith, h.same_len, small)) (offset_inside it h)
          b in
      let (size, there, rest2) = >>=-returned _ _ (load_le (esl + 16) 4 bounded.buf) rest in
      let ends : bounded.offset + size ≤ len =
        ground (arith, there, fitted.size_there, fitted.ends, kept.same_len, h.same_len) in
      elim (Bool-cases (leb bounded.len (u32 (bounded.offset + size)))) [
        | inl over ↦ absurd (ground (arith, over, rest2))
        | inr not_over ↦
            at-IsInside
              (record bounded {
                offset = bounded.offset + size;
                esl = some (bounded.offset + size);
              })
              it' type esd n (kept.same_len ∙ h.same_len) (kept.same_room ∙ h.same_room) ends refl
              (sym (if-false _ _ _ not_over) ∙ rest2)
      ]

  next-IsInside :
      (it it' : ListIter) (type : List ℕ) (esd n : ℕ)
      → IsInside buf len it
      → esl_list_iter_next c it ≡ ok (list_next it' type esd n)
      → IsInside buf len it'
  unfolding esl_list_iter_next
  next-IsInside it it' type esd n h e =
      from-IsInside it it' it.esl type esd n refl h
        (>>-returned _ _ (guard (ltb (u32 it.offset) it.len) einval) e).1

  -- Wherever `esl_list_iter_next` stops in a buffer of fewer than 2^32 bytes, whatever these are, the list it is at starts at
  -- its offset and ends within the buffer, whose length is unchanged, also when sizes are corrected in it.
  pub Reach-IsInside : (it : ListIter) → Reach c buf len it → IsInside buf len it
  unfolding esl_list_iter_new
  Reach-IsInside it (start _ e) =
      let (_, made) = >>-returned _ _ (guard (leb 44 len) einval) e in
      let same : record { buf = buf; len = len; offset = 0; esl = none } ≡ it =
        ground (arith, made) in
      subst (IsInside buf len) same
        (record { same_len = refl; same_room = refl; at = inl (refl, refl) })
  Reach-IsInside it' (step it _ type esd n r e) =
      next-IsInside it it' type esd n (Reach-IsInside it r) e
