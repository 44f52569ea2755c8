-- ===== src/EslIter/Places.antt =====
-- src/esl-iter.c: what the fields of a signature list in memory hold, and its entries.
use native.Mathlib.Nat.{mul-le-mul_left}
use efivar.Common.{
  ℕ, ◌+◌, ◌*◌, ◌^◌, ◌<◌, ◌≡◌, refl, ◌∙◌, ap, sym, subst, ◌-◌, false, List, [], ◌∷◌, ◌++◌, length,
  All, arith, length-append, append_assoc, append-nil,
}
use efivar.Common.Outcome.{ok}
use efivar.Common.Memory.{
  le_bytes, length-le_bytes, load, load_le, concat, load-block, concat-append, load_le-block,
  length-concat,
}
use efivar.EslIter.{is_zero}
use efivar.EslIter.Layout.{
  Signature, SigList, Holds, list_size, IsSigList, sig_blocks, blocks, length-sig_blocks,
  sig_blocks-append, All-split, is_zero-append, le_bytes-not_zero,
}

-- A list behind some bytes, and what follows.
module _ (l : SigList) (h : IsSigList l) (before : List ℕ) (back : List (List ℕ)) where
  abbrev pub memory : List ℕ
  memory = concat (before ∷ blocks l back)

  abbrev f1 : List ℕ
  f1 = le_bytes 4 (list_size l)

  abbrev f2 : List ℕ
  f2 = le_bytes 4 (length l.header)

  abbrev f3 : List ℕ
  f3 = le_bytes 4 l.sig_size

  size_facts : (length f1 ≡ 4) × (length f2 ≡ 4) × (length f3 ≡ 4)
  size_facts = (
    length-le_bytes 4 (list_size l),
    length-le_bytes 4 (length l.header),
    length-le_bytes 4 l.sig_size,
  )

  pub load-type : load (length before) 16 memory ≡ ok l.type
  unfolding blocks
  load-type =
      load-block (length before) 16 (before ∷ []) l.type _
        (omega (arith, length-concat (before ∷ []))) (omega (arith, h.type_size))

  pub load-list_size : load_le (length before + 16) 4 memory ≡ ok (list_size l)
  unfolding blocks
  load-list_size =
      load_le-block (length before + 16) 4 (before ∷ l.type ∷ []) (list_size l) _
        (omega (arith, h.type_size, length-concat (before ∷ l.type ∷ []))) (omega (arith, h.fits))

  pub load-header_size : load_le (length before + 20) 4 memory ≡ ok (length l.header)
  unfolding blocks
  load-header_size =
      load_le-block (length before + 20) 4 (before ∷ l.type ∷ f1 ∷ []) (length l.header) _
        (omega (arith, size_facts, h.type_size, length-concat (before ∷ l.type ∷ f1 ∷ [])))
        (omega (arith, h.fits))

  pub sig_size_fits : l.sig_size < 2 ^ 32
  sig_size_fits = omega (
    arith,
    h.fits,
    mul-le-mul_left {m = 1} {n = length l.entries} l.sig_size (omega (arith, h.some_entry)),
  )

  pub load-sig_size : load_le (length before + 24) 4 memory ≡ ok l.sig_size
  unfolding blocks
  load-sig_size =
      load_le-block (length before + 24) 4 (before ∷ l.type ∷ f1 ∷ f2 ∷ []) l.sig_size _
        (omega (arith, size_facts, h.type_size, length-concat (before ∷ l.type ∷ f1 ∷ f2 ∷ [])))
        (omega (arith, sig_size_fits))

  abbrev head : List ℕ
  head = l.type ++ (f1 ++ (f2 ++ f3))

  length-head : length head ≡ 28
  length-head = omega (
    arith,
    size_facts,
    h.type_size,
    length-append l.type (f1 ++ (f2 ++ f3)),
    length-append f1 (f2 ++ f3),
    length-append f2 f3,
  )

  one_head : memory ≡ concat (before ∷ head ∷ l.header ∷ (sig_blocks l.entries ++ back))
  unfolding blocks concat
  one_head = simp (append_assoc) refl

  pub load-head : load (length before) 28 memory ≡ ok head
  load-head = rw one_head (
      load-block (length before) 28 (before ∷ []) head _
        (omega (arith, length-concat (before ∷ []))) (omega (arith, length-head)))

  pub is_zero-head : is_zero head ≡ false
  is_zero-head = ground (
    arith,
    is_zero-append l.type (f1 ++ (f2 ++ f3)),
    is_zero-append f1 (f2 ++ f3),
    le_bytes-not_zero 4 (list_size l) (omega (arith, h.fits)) (omega arith),
  )

  -- What lies behind the sizes and the header of the list.
  pub length-start :
      length (concat (before ∷ l.type ∷ f1 ∷ f2 ∷ f3 ∷ l.header ∷ []))
      ≡ length before + (28 + length l.header)
  length-start = omega (
    arith,
    size_facts,
    h.type_size,
    length-concat (before ∷ l.type ∷ f1 ∷ f2 ∷ f3 ∷ l.header ∷ []),
  )

  pub length-list : length (concat (blocks l back)) ≡ list_size l + length (concat back)
  unfolding blocks
  length-list = omega (
    arith,
    size_facts,
    h.type_size,
    length-concat (l.type ∷ f1 ∷ f2 ∷ f3 ∷ l.header ∷ (sig_blocks l.entries ++ back)),
    length-concat (sig_blocks l.entries ++ back),
    ap length (concat-append (sig_blocks l.entries) back),
    length-append (concat (sig_blocks l.entries)) (concat back),
    length-sig_blocks l.sig_size l.entries h.entry_sizes,
  )

  -- An entry of the list, behind others.
  module _ (pre : List Signature) (s : Signature) (post : List Signature)
      (cut : l.entries ≡ pre ++ (s ∷ post)) where
    abbrev pub esd : ℕ
    esd = length before + (28 + length l.header) + l.sig_size * length pre

    abbrev in_front : List (List ℕ)
    in_front = before ∷ l.type ∷ f1 ∷ f2 ∷ f3 ∷ l.header ∷ sig_blocks pre

    cut_tail :
        sig_blocks l.entries ++ back
        ≡ sig_blocks pre ++ (s.owner ∷ s.contents ∷ (sig_blocks post ++ back))
    unfolding sig_blocks
    cut_tail =
        ap (λ (e : List Signature). sig_blocks e ++ back) cut
        ∙ ap (λ (b : List (List ℕ)). b ++ back) (sig_blocks-append pre (s ∷ post))
        ∙ append_assoc (sig_blocks pre) (s.owner ∷ s.contents ∷ sig_blocks post) back

    cut_memory : memory ≡ concat (in_front ++ (s.owner ∷ s.contents ∷ (sig_blocks post ++ back)))
    unfolding blocks
    cut_memory =
        ap (λ (t : List (List ℕ)). concat (before ∷ l.type ∷ f1 ∷ f2 ∷ f3 ∷ l.header ∷ t)) cut_tail

    pub sizes : All (Holds l.sig_size) pre × Holds l.sig_size s
    sizes =
        All-split (Holds l.sig_size) pre s post (subst (All (Holds l.sig_size)) cut h.entry_sizes)

    length-in_front : length (concat in_front) ≡ esd
    length-in_front = omega (
      arith,
      size_facts,
      h.type_size,
      length-concat in_front,
      length-concat (sig_blocks pre),
      length-sig_blocks l.sig_size pre sizes.0,
    )

    pub load-owner : load esd 16 memory ≡ ok s.owner
    load-owner =
        subst (λ (m : List ℕ). load esd 16 m ≡ ok s.owner) (sym cut_memory)
          (load-block esd 16 in_front s.owner _ (omega (arith, length-in_front))
            (omega (arith, sizes.1)))

    after_owner : esd + 16 ≡ length (concat (in_front ++ (s.owner ∷ [])))
    after_owner = omega (
      arith,
      ap length (concat-append in_front (s.owner ∷ [])),
      length-append (concat in_front) (concat (s.owner ∷ [])),
      length-concat (s.owner ∷ []),
      length-in_front,
      sizes.1,
    )

    pub load-contents : load (esd + 16) (l.sig_size - 16) memory ≡ ok s.contents
    load-contents =
        subst (λ (m : List ℕ). load (esd + 16) (l.sig_size - 16) m ≡ ok s.contents)
          (ap concat (append_assoc in_front (s.owner ∷ []) (s.contents ∷ (sig_blocks post ++ back)))
            ∙ sym cut_memory)
          (load-block (esd + 16) (l.sig_size - 16) (in_front ++ (s.owner ∷ [])) s.contents _
            after_owner (omega (arith, sizes.1)))

-- The bytes of a list and those behind it.
blocks-split : (l : SigList) (back : List (List ℕ)) → blocks l back ≡ blocks l [] ++ back
unfolding blocks
blocks-split l back =
    ap
      (λ (t : List (List ℕ)).
        l.type
        ∷ le_bytes 4 (list_size l)
        ∷ le_bytes 4 (length l.header)
        ∷ le_bytes 4 l.sig_size
        ∷ l.header
        ∷ t)
      (ap (λ (t : List (List ℕ)). t ++ back) (sym (append-nil (sig_blocks l.entries))))

module _ (l : SigList) (h : IsSigList l) (before : List ℕ) where
  pub with_list : List ℕ
  with_list = concat (before ∷ blocks l [])

  pub length-with_list : length with_list ≡ length before + list_size l
  unfolding with_list concat
  length-with_list =
      omega (arith, length-append before (concat (blocks l [])), length-list l h before [])

  pub shift-memory :
      (back : List (List ℕ)) → concat (before ∷ blocks l back) ≡ concat (with_list ∷ back)
  unfolding with_list concat
  shift-memory back =
      ap (λ (t : List (List ℕ)). before ++ concat t) (blocks-split l back)
      ∙ ap (λ (t : List ℕ). before ++ t) (concat-append (blocks l []) back)
      ∙ sym (append_assoc before (concat (blocks l [])) (concat back))
