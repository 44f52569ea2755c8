-- ===== src/PathHelpers/Segments.antt =====
-- src/path-helpers.c and src/path-helpers.h: the segment of a path that `pathseg` returns.
use efivar.Common.{
  ℕ, zero, suc, ◌+◌, ◌-◌, ◌^◌, ◌≤◌, ◌<◌, ◌≡◌, ◌⊎◌, inl, inr, refl, sym, ap, ◌∙◌, subst, true, none,
  some, List, [], ◌∷◌, length, arith, replicate, map, length-append, ltb, leb, if◌then◌else◌,
  Bool-cases,
}
use efivar.Common.Words.{u32}
use efivar.Common.Outcome.{Outcome, ok, err, enoent, ◌>>>=◌}
use efivar.PathHelpers.{
  slash, count_spans, Span, span_bytes, split_spans, nth_span, pick_span, find_path_segment, copied,
  pathseg,
}
use efivar.PathHelpers.Text.{text, IsParts}
use efivar.PathHelpers.Split.{
  Text, absolute, relative, parts, path_text, segments, length-parts, length-names,
  count_spans-text, split_spans-text,
}

unfoldable pub nth : List (List ℕ) → ℕ → Outcome (List ℕ)
nth [] i = err enoent
nth (x ∷ xs) zero = ok x
nth (x ∷ xs) (suc i) = nth xs i

-- The segment of an `int`, which counts from the end where it is negative. A path with no segments has only the empty one.
unfoldable pub segment_at : List (List ℕ) → ℕ → Outcome (List ℕ)
unfolding nth
segment_at [] segment = ok []
segment_at (x ∷ xs) segment =
    let back = 2 ^ 32 - segment in
    if ltb segment (2 ^ 31)
    then nth (x ∷ xs) segment
    else if leb back (length (x ∷ xs))
    then nth (x ∷ xs) (length (x ∷ xs) - back)
    else err enoent

-- The position that an `int` stands for.
data Chosen (n segment : ℕ) : Type 0 where
  front : segment < 2 ^ 31 → segment < n → Chosen n segment
  back : 2 ^ 31 ≤ segment → 2 ^ 32 - segment ≤ n → Chosen n segment
  beyond :
      ((segment < 2 ^ 31) × (n ≤ segment)) ⊎ ((2 ^ 31 ≤ segment) × (n < 2 ^ 32 - segment))
      → Chosen n segment

position : (n segment : ℕ) → Chosen n segment
position n segment = elim (Bool-cases (ltb segment (2 ^ 31))) [
  | inl a ↦ elim (Bool-cases (ltb segment n)) [
    | inl b ↦ front (ground arith) (ground arith)
    | inr b ↦ beyond (inl (ground arith, ground arith))
  ]
  | inr a ↦ elim (Bool-cases (leb (2 ^ 32 - segment) n)) [
    | inl b ↦ back (ground arith) (ground arith)
    | inr b ↦ beyond (inr (ground arith, ground arith))
  ]
]

module _ (spans : List Span) (segment : ℕ) (some_span : 0 < length spans)
    (few : length spans < 2 ^ 31) (range : segment < 2 ^ 32) where
  pick_span-front :
      segment < 2 ^ 31 → segment < length spans → pick_span spans segment ≡ nth_span spans segment
  unfolding pick_span
  pick_span-front h k = ground arith

  pick_span-back :
      2 ^ 31 ≤ segment
      → 2 ^ 32 - segment ≤ length spans
      → pick_span spans segment ≡ nth_span spans (length spans - (2 ^ 32 - segment))
  unfolding pick_span
  pick_span-back h k =
      let i : u32 (length spans + segment) ≡ length spans - (2 ^ 32 - segment) = omega arith in
      let high : leb (2 ^ 31) segment ≡ true = ground arith in
      rw (high, pick_span) (rw i (ground arith))

  pick_span-beyond :
      ((segment < 2 ^ 31) × (length spans ≤ segment))
        ⊎ ((2 ^ 31 ≤ segment) × (length spans < 2 ^ 32 - segment))
      → pick_span spans segment ≡ err enoent
  unfolding pick_span
  pick_span-beyond (inl h) = ground (arith, h)
  pick_span-beyond (inr h) =
      let i : u32 (length spans + segment) ≡ length spans + segment = omega (arith, h) in
      let high : leb (2 ^ 31) segment ≡ true = ground (arith, h) in
      rw (high, pick_span) (rw i (ground (arith, h)))

nth_span-span_bytes :
    (str : List ℕ) (spans : List Span) (i : ℕ)
    → i < length spans
    → (span : Span) × (nth_span spans i ≡ ok (some span))
      × (nth (map (span_bytes str) spans) i ≡ ok (span_bytes str span))
unfolding nth_span nth
nth_span-span_bytes str [] i h = absurd (omega arith)
nth_span-span_bytes str (span ∷ spans) zero h = (span, refl, refl)
nth_span-span_bytes str (span ∷ spans) (suc i) h = nth_span-span_bytes str spans i (omega arith)

nth-beyond : (xs : List (List ℕ)) (i : ℕ) → length xs ≤ i → nth xs i ≡ err enoent
unfolding nth
nth-beyond [] i h = refl
nth-beyond (x ∷ xs) zero h = absurd (omega arith)
nth-beyond (x ∷ xs) (suc i) h = nth-beyond xs i (omega arith)

segment_at-front :
    (xs : List (List ℕ)) (segment : ℕ)
    → 0 < length xs
    → segment < 2 ^ 31
    → segment_at xs segment ≡ nth xs segment
unfolding segment_at
segment_at-front [] segment pos h = absurd (omega arith)
segment_at-front (x ∷ xs) segment pos h = ground arith

segment_at-back :
    (xs : List (List ℕ)) (segment : ℕ)
    → 0 < length xs
    → 2 ^ 31 ≤ segment
    → 2 ^ 32 - segment ≤ length xs
    → segment_at xs segment ≡ nth xs (length xs - (2 ^ 32 - segment))
unfolding segment_at
segment_at-back [] segment pos h k = absurd (omega arith)
segment_at-back (x ∷ xs) segment pos h k = ground arith

segment_at-beyond :
    (xs : List (List ℕ)) (segment : ℕ)
    → 0 < length xs
    → ((segment < 2 ^ 31) × (length xs ≤ segment))
      ⊎ ((2 ^ 31 ≤ segment) × (length xs < 2 ^ 32 - segment))
    → segment_at xs segment ≡ err enoent
unfolding segment_at
segment_at-beyond [] segment pos h = absurd (omega arith)
segment_at-beyond (x ∷ xs) segment pos (inl h) = ground (arith, h, nth-beyond (x ∷ xs) segment h.1)
segment_at-beyond (x ∷ xs) segment pos (inr h) = ground (arith, h)

length-span_bytes :
    (str : List ℕ) (spans : List Span) → length (map (span_bytes str) spans) ≡ length spans
length-span_bytes str [] = refl
length-span_bytes str (span ∷ spans) = ap suc (length-span_bytes str spans)

module _ (str : List ℕ) (spans : List Span) where
  copied-nth :
      (i : ℕ)
      → i < length spans
      → (some (nth_span spans i) >>>= copied str) ≡ some (nth (map (span_bytes str) spans) i)
  unfolding copied
  copied-nth i h =
      let (span, found, copy) = nth_span-span_bytes str spans i h in rw found (rw copy refl)

  pick_span-segment_at :
      (segment : ℕ)
      → 0 < length spans
      → length spans < 2 ^ 31
      → segment < 2 ^ 32
      → (some (pick_span spans segment) >>>= copied str)
        ≡ some (segment_at (map (span_bytes str) spans) segment)
  pick_span-segment_at segment pos few range =
      let n = length-span_bytes str spans in
      let pos' : 0 < length (map (span_bytes str) spans) = omega (arith, n) in
      elim (position (length spans) segment) [
        | front h k ↦ rw (pick_span-front spans segment pos few range h k) (
            copied-nth segment k
            ∙ ap some (sym (segment_at-front (map (span_bytes str) spans) segment pos' h)))
        | back h k ↦ rw (pick_span-back spans segment pos few range h k) (
            copied-nth (length spans - (2 ^ 32 - segment)) (omega (arith, range))
            ∙ ap (λ m. some (nth (map (span_bytes str) spans) (m - (2 ^ 32 - segment)))) (sym n)
            ∙ ap some (
                sym
                  (segment_at-back (map (span_bytes str) spans) segment pos' h (omega (arith, n)))))
        | beyond h ↦ rw (pick_span-beyond spans segment pos few range h) (
            ap some (
              sym (
                segment_at-beyond (map (span_bytes str) spans) segment pos' (
                  subst
                    (λ m.
                      ((segment < 2 ^ 31) × (m ≤ segment))
                      ⊎ ((2 ^ 31 ≤ segment) × (m < 2 ^ 32 - segment)))
                    (sym n) h))))
      ]

pathseg-some :
    (turns : ℕ) (path : List ℕ) (segment : ℕ) (spans : List Span)
    → split_spans turns path (slash ∷ []) ≡ some (ok (some spans))
    → pathseg turns path segment ≡ (some (pick_span spans segment) >>>= copied path)
unfolding pathseg find_path_segment
pathseg-some turns path segment spans e = rw (e, find_path_segment) refl

null_spans :
    (turns : ℕ) (path : List ℕ) (c : ℕ)
    → count_spans turns path (slash ∷ []) ≡ some (0, c)
    → split_spans turns path (slash ∷ []) ≡ some (ok none)
unfolding split_spans
null_spans turns path c e = rw (e, split_spans) refl

pathseg-none :
    (turns : ℕ) (path : List ℕ) (segment c : ℕ)
    → count_spans turns path (slash ∷ []) ≡ some (0, c)
    → pathseg turns path segment ≡ some (ok [])
unfolding pathseg find_path_segment copied
pathseg-none turns path segment c e =
    let null : split_spans turns path (slash ∷ []) ≡ some (ok none) = null_spans turns path c e in
    rw (null, find_path_segment) refl

few_segments :
    (t : Text) → IsParts (parts t) → length (path_text t) < 2 ^ 31 → length (segments t) < 2 ^ 31
few_segments (absolute more ps) h small = omega (
  arith,
  small,
  length-parts ps h,
  length-names ps,
  length-append (replicate more slash) (text ps),
)
few_segments (relative ps) h small = omega (arith, small, length-parts ps h, length-names ps)

nil_or : (xs : List (List ℕ)) → (xs ≡ []) ⊎ (0 < length xs)
nil_or [] = inl refl
nil_or (x ∷ xs) = inr (omega arith)

-- `pathseg` of a path of fewer than 2^31 characters, with two turns more than it has names: it returns the segment asked for,
-- counted from 0 or, for a negative number, from behind, where the slash of an absolute path counts as its first segment; ENOENT
-- where there is no such segment, and nothing of a path that is empty. However many slashes are between the names.
pub pathseg-segment_at :
    (turns : ℕ) (t : Text) (segment : ℕ)
    → IsParts (parts t)
    → length (path_text t) < 2 ^ 31
    → length (parts t) + 1 < turns
    → segment < 2 ^ 32
    → pathseg turns (path_text t) segment ≡ some (segment_at (segments t) segment)
unfolding segment_at
pathseg-segment_at turns t segment h small many range =
    let (c, counted) = count_spans-text turns t h small many in
    elim (nil_or (segments t)) [
      | inl e ↦
          pathseg-none turns (path_text t) segment c
            (counted ∙ ap (λ (xs : List (List ℕ)). some (length xs, c)) e)
          ∙ ap (λ (xs : List (List ℕ)). some (segment_at xs segment)) (sym e)
      | inr pos ↦
          let (spans, split, names) = split_spans-text turns t h small many pos in
          let n : length spans ≡ length (segments t) =
            sym (length-span_bytes (path_text t) spans) ∙ ap length names in
          pathseg-some turns (path_text t) segment spans split
          ∙ pick_span-segment_at (path_text t) spans segment (omega (arith, n))
              (omega (arith, n, few_segments t h small)) range
          ∙ ap (λ (xs : List (List ℕ)). some (segment_at xs segment)) names
    ]
