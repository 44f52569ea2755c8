-- ===== src/SecDb/Realize.antt =====
-- src/secdb.c: the buffer of `efi_secdb_realize` while a list is written.
use efivar.Common.{
  ℕ, zero, suc, ◌+◌, ◌-◌, ◌*◌, ◌^◌, ◌≤◌, ◌<◌, ◌≡◌, refl, sym, ap, ap₂, ◌∙◌, subst, List, [], ◌∷◌,
  ◌++◌, length, All, arith, take, drop, replicate, append_assoc, append-nil, length-append,
  take-length_append,
}
use efivar.Common.Words.{u32}
use efivar.Common.Outcome.{ok}
use efivar.Common.Memory.{
  le_bytes, load, store, concat, concat-append, store-block, load_le-block, load-all, length-concat,
  length-le_bytes, pieces, concat-pieces, pieces-Sized,
}
use efivar.EslIter.Layout.{Signature, Holds, sig_blocks, length-sig_blocks, sig_blocks-append}
use efivar.SecDb.Visit.{VisitorState, align_up, grow, extend_list, write_entry}

pub length-replicate : (n : ℕ) → length (replicate {A = ℕ} n 0) ≡ n
length-replicate zero = refl
length-replicate (suc n) = ap suc (length-replicate n)

pub concat-single : (b : List ℕ) → concat (b ∷ []) ≡ b
unfolding concat
concat-single b = append-nil b

pub align_up-le : (value align : ℕ) → value ≤ align_up value align
unfolding align_up
align_up-le value align = omega arith

concat-one : (ys : List (List ℕ)) → concat (concat ys ∷ []) ≡ concat ys
unfolding concat
concat-one ys = append-nil (concat ys)

module _ (page_size : ℕ) (alg_guid : ℕ → List ℕ) where
  -- The buffer inside a list: what is before it, its header with the size so far, its entries so far, and the rest.
  abbrev pub front : List ℕ → ℕ → ℕ → ℕ → List Signature → List (List ℕ)
  front done algorithm ss size pre =
      done ∷ alg_guid algorithm ∷ le_bytes 4 size ∷ le_bytes 4 0 ∷ le_bytes 4 ss ∷ sig_blocks pre

  abbrev pub memory : List ℕ → ℕ → ℕ → ℕ → List Signature → List ℕ → List ℕ
  memory done algorithm ss size pre tail = concat (front done algorithm ss size pre ++ (tail ∷ []))

  pub concat-tail : (xs ys : List (List ℕ)) → concat (xs ++ (concat ys ∷ [])) ≡ concat (xs ++ ys)
  concat-tail xs ys =
      concat-append xs (concat ys ∷ [])
      ∙ ap (λ (t : List ℕ). concat xs ++ t) (concat-one ys)
      ∙ sym (concat-append xs ys)

  -- The state inside a list, the first entries of which are written.
  unfoldable pub inside : List ℕ → ℕ → ℕ → List Signature → ℕ → ℕ → List ℕ → VisitorState
  inside done algorithm ss pre size listnum tail = record {
    listnum = listnum;
    esl = length done;
    buf = memory done algorithm ss size pre tail;
    pos = length done + 28 + ss * length pre;
  }

  module _ (done : List ℕ) (algorithm ss : ℕ) (pre : List Signature)
      (g : length (alg_guid algorithm) ≡ 16) (hp : All (Holds ss) pre) where
    pub front_size :
        (size : ℕ)
        → length (concat (front done algorithm ss size pre)) ≡ length done + 28 + ss * length pre
    front_size size = omega (
      arith,
      length-concat (front done algorithm ss size pre),
      g,
      length-le_bytes 4 size,
      length-le_bytes 4 0,
      length-le_bytes 4 ss,
      length-concat (sig_blocks pre),
      length-sig_blocks ss pre hp,
    )

    module _ (s : Signature) (hs : Holds ss s) (size listnum : ℕ) (fits : size + ss < 2 ^ 32) where
      write_entry-blocks :
          (o c r : List ℕ)
          → length o ≡ 16
          → length c ≡ ss - 16
          → write_entry s.owner s.contents (ss - 16) ss (record {
            listnum = listnum;
            esl = length done;
            buf = concat (front done algorithm ss size pre ++ (o ∷ c ∷ r ∷ []));
            pos = length done + 28 + ss * length pre;
          })
            ≡ ok (record {
              listnum = listnum;
              esl = length done;
              buf =
                  concat
                    (front done algorithm ss (size + ss) pre ++ (s.owner ∷ s.contents ∷ r ∷ []));
              pos = length done + 28 + ss * length pre + ss;
            })
      unfolding write_entry
      write_entry-blocks o c r po pc =
          let f = front done algorithm ss size pre in
          let contents_size : length s.contents ≡ ss - 16 = omega (arith, hs.1) in
          let small : u32 (size + ss) ≡ size + ss = omega arith in
          let back =
            le_bytes 4 0 ∷ le_bytes 4 ss ∷ (sig_blocks pre ++ (s.owner ∷ s.contents ∷ r ∷ [])) in
          let at_size : length done + 16 ≡ length (concat (done ∷ alg_guid algorithm ∷ [])) =
            omega (arith, g, length-concat (done ∷ alg_guid algorithm ∷ [])) in
          rw
            (store-block (length done + 28 + ss * length pre) f o s.owner (c ∷ r ∷ [])
              (sym (front_size size)) (omega (arith, hs.0)))
            (rw (load_size contents_size) (
              rw (second c r contents_size pc) (
                rw
                  (load_le-block (length done + 16) 4 (done ∷ alg_guid algorithm ∷ []) size back
                    at_size (omega arith))
                  (rw small (
                    rw
                      (store-block (length done + 16) (done ∷ alg_guid algorithm ∷ [])
                        (le_bytes 4 size) (le_bytes 4 (size + ss)) back at_size
                        (omega (arith, length-le_bytes 4 size, length-le_bytes 4 (size + ss))))
                      refl)))))
        where
          load_size : length s.contents ≡ ss - 16 → load 0 (ss - 16) s.contents ≡ ok s.contents
          load_size e = subst (λ n. load 0 n s.contents ≡ ok s.contents) e (load-all s.contents)

          second :
              (c r : List ℕ)
              → length s.contents ≡ ss - 16
              → length c ≡ ss - 16
              → store
                  (length done + 28 + ss * length pre + 16)
                  s.contents
                  (concat (front done algorithm ss size pre ++ (s.owner ∷ c ∷ r ∷ [])))
                ≡ ok (concat (front done algorithm ss size pre ++ (s.owner ∷ s.contents ∷ r ∷ [])))
          second c r e pc =
              let f = front done algorithm ss size pre in
              ap
                (λ (t : List (List ℕ)).
                  store (length done + 28 + ss * length pre + 16) s.contents (concat t))
                (sym (append_assoc f (s.owner ∷ []) (c ∷ r ∷ [])))
              ∙ store-block (length done + 28 + ss * length pre + 16) (f ++ (s.owner ∷ [])) c
                  s.contents (r ∷ [])
                  (omega (
                    arith,
                    hs.0,
                    front_size size,
                    ap length (concat-append f (s.owner ∷ [])),
                    length-append (concat f) (concat (s.owner ∷ [])),
                    length-concat (s.owner ∷ []),
                  ))
                  (omega (arith, e, pc))
              ∙ ap (λ (t : List (List ℕ)). ok (concat t))
                  (append_assoc f (s.owner ∷ []) (s.contents ∷ r ∷ []))

      -- The state inside the list, before and after an entry.
      pub write_entry-memory :
          (tail : List ℕ)
          → ss ≤ length tail
          → write_entry s.owner s.contents
              (ss - 16)
              ss
              (inside done algorithm ss pre size listnum tail)
            ≡ ok (inside done algorithm ss (pre ++ (s ∷ [])) (size + ss) listnum (drop ss tail))
      unfolding pieces inside sig_blocks
      write_entry-memory tail room =
          let sizes = pieces-Sized (16 ∷ (ss - 16) ∷ []) tail (omega (arith, room, hs.1)) in
          let cut : concat
                (pieces (16 ∷ (ss - 16) ∷ []) tail ++ (drop (16 + (ss - 16 + 0)) tail ∷ []))
              ≡ tail =
            concat-pieces (16 ∷ (ss - 16) ∷ []) tail in
          let o = take 16 tail in
          let c = take (ss - 16) (drop 16 tail) in
          let r = drop (16 + (ss - 16 + 0)) tail in
          ap
            (λ (b : List ℕ). write_entry s.owner s.contents (ss - 16) ss (record {
              listnum = listnum;
              esl = length done;
              buf = b;
              pos = length done + 28 + ss * length pre;
            }))
            (ap (λ (t : List ℕ). memory done algorithm ss size pre t) (sym cut)
              ∙ concat-tail (front done algorithm ss size pre) (o ∷ c ∷ r ∷ []))
          ∙ write_entry-blocks o c r sizes.0 sizes.1.0
          ∙ ap₂
              (λ (b : List ℕ) (n : ℕ).
                ok (record { listnum = listnum; esl = length done; buf = b; pos = n }))
              (ap
                  (λ (t : List (List ℕ)). concat (
                    done
                    ∷ alg_guid algorithm
                    ∷ le_bytes 4 (size + ss)
                    ∷ le_bytes 4 0
                    ∷ le_bytes 4 ss
                    ∷ t))
                  (sym (append_assoc (sig_blocks pre) (s.owner ∷ s.contents ∷ []) (r ∷ []))
                    ∙ ap (λ (t : List (List ℕ)). t ++ (r ∷ []))
                        (sym (sig_blocks-append pre (s ∷ []))))
                ∙ ap
                    (λ (n : ℕ).
                      memory done algorithm ss (size + ss) (pre ++ (s ∷ [])) (drop n tail))
                    (omega (arith, hs.1)))
              (omega (arith, count))
        where
          count : ss * length (pre ++ (s ∷ [])) ≡ ss * length pre + ss
          count = rw (length-append pre (s ∷ [])) (grind arith)

  pub grow-blocks :
      (pos allocsz : ℕ) (fs : List (List ℕ)) (tail : List ℕ)
      → pos ≡ length (concat fs)
      → grow pos allocsz (concat (fs ++ (tail ∷ [])))
        ≡ concat (fs ++ (replicate (allocsz - pos) 0 ∷ []))
  unfolding grow
  grow-blocks pos allocsz fs tail p =
      ap (λ (b : List ℕ). take pos b ++ replicate (allocsz - pos) 0) (concat-append fs (tail ∷ []))
      ∙ ap (λ (n : ℕ). take n (concat fs ++ concat (tail ∷ [])) ++ replicate (allocsz - pos) 0) p
      ∙ ap (λ (b : List ℕ). b ++ replicate (allocsz - pos) 0)
          (take-length_append (concat fs) (concat (tail ∷ [])))
      ∙ ap (λ (b : List ℕ). concat fs ++ b) (sym (concat-single (replicate (allocsz - pos) 0)))
      ∙ sym (concat-append fs (replicate (allocsz - pos) 0 ∷ []))

  pub extend_list-inside :
      (done : List ℕ) (algorithm ss size listnum : ℕ) (pre : List Signature) (tail : List ℕ)
      → length (alg_guid algorithm) ≡ 16
      → All (Holds ss) pre
      → (more : List ℕ) × (extend_list page_size alg_guid ss
            (inside done algorithm ss pre size listnum tail)
          ≡ inside done algorithm ss pre size listnum more)
        × (ss ≤ length more)
  unfolding inside extend_list
  extend_list-inside done algorithm ss size listnum pre tail g hp =
      let pos : ℕ = length done + 28 + ss * length pre in
      let allocsz : ℕ = align_up (pos + ss) page_size in
      (
        replicate (allocsz - pos) 0,
        ap (λ (b : List ℕ). record { listnum = listnum; esl = length done; buf = b; pos = pos })
            (grow-blocks pos allocsz (front done algorithm ss size pre) tail
              (sym (front_size done algorithm ss pre g hp size))),
        omega (arith, length-replicate (allocsz - pos), align_up-le (pos + ss) page_size),
      )
