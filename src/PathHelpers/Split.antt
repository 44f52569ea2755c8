-- ===== src/PathHelpers/Split.antt =====
-- src/path-helpers.c: the spans of a path with slashes in front of its first name.
use efivar.Common.{
  ℕ, zero, suc, ◌+◌, ◌-◌, ◌^◌, ◌≤◌, ◌<◌, ◌≡◌, refl, ap, ◌∙◌, false, some, List, [], ◌∷◌, ◌++◌, drop,
  length, All, arith, replicate, map, length-append, ◌==◌,
}
use efivar.Common.Outcome.{ok}
use efivar.PathHelpers.{
  cinpat, slash, is_absolute, at_nul, count_loop, count_spans, Span, span_bytes, fill_loop,
  fill_spans, split_spans,
}
use efivar.PathHelpers.Text.{
  Part, IsPlain, text, IsParts, Turn, turn, strcspn-behind, strxcspn-text,
}
use efivar.PathHelpers.Spans.{count_loop-text, fill_loop-text, put_span-ok}

-- A path, with its slashes in front of the first name.
pub data Text : Type 0 where
  absolute : ℕ → List Part → Text
  relative : List Part → Text

abbrev pub parts : Text → List Part
parts (absolute more ps) = ps
parts (relative ps) = ps

abbrev pub path_text : Text → List ℕ
path_text (absolute more ps) = slash ∷ (replicate more slash ++ text ps)
path_text (relative ps) = text ps

abbrev pub names_of : List Part → List (List ℕ)
names_of ps = map (λ (p : Part). p.name) ps

-- The segments: the names, behind the slash of an absolute path.
abbrev pub segments : Text → List (List ℕ)
segments (absolute more ps) = (slash ∷ []) ∷ names_of ps
segments (relative ps) = names_of ps

pub length-parts : (ps : List Part) → IsParts ps → length ps ≤ length (text ps)
unfolding text
length-parts [] h = omega arith
length-parts (p ∷ ps) h = omega (
  arith,
  h.0,
  length-parts ps h.3,
  length-append p.name (replicate p.slashes slash ++ text ps),
  length-append (replicate p.slashes slash) (text ps),
)

-- The turn at the slashes that are left in front of the first name.
module _ (str : List ℕ) (pos more : ℕ) (ps : List Part) (small : length str < 2 ^ 32)
    (le : pos ≤ length str) (here : drop pos str ≡ replicate (suc more) slash ++ text ps)
    (h : IsParts ps) where
  slashes_turn : Turn str pos [] (suc more) (text ps)
  slashes_turn =
      turn str pos [] (suc more) (text ps) small le here tt
        (strcspn-behind (suc more) ps (λ _. omega arith)) (strxcspn-text ps h)

  more_there : at_nul (drop pos str) ≡ false
  unfolding at_nul
  more_there = ap at_nul here

count_loop-slashes :
    (turns : ℕ) (str : List ℕ) (s c pos more : ℕ) (ps : List Part)
    → length str < 2 ^ 32
    → pos ≤ length str
    → drop pos str ≡ replicate more slash ++ text ps
    → IsParts ps
    → s + length ps < 2 ^ 32
    → length ps + 1 < turns
    → (c' : ℕ) × (count_loop turns str (slash ∷ []) s c pos ≡ some (s + length ps, c'))
unfolding count_loop
count_loop-slashes turns str s c pos zero ps small le here h few many =
    count_loop-text turns str s c pos ps small le here h few (omega arith)
count_loop-slashes zero str s c pos (suc more) ps small le here h few many = absurd (omega arith)
count_loop-slashes (suc turns) str s c pos (suc more) ps small le here h few many =
    let t = slashes_turn str pos more ps small le here h in
    let (c', rest) =
      count_loop-text turns str s c (pos + 0 + suc more) ps small t.inside t.rests h few
        (omega arith) in
    (c', rw (more_there str pos more ps small le here h) (rw t.spans (rw t.next rest)))

fill_loop-slashes :
    (turns : ℕ) (str : List ℕ) (room pos more : ℕ) (ps : List Part)
    → length str < 2 ^ 32
    → pos ≤ length str
    → drop pos str ≡ replicate more slash ++ text ps
    → IsParts ps
    → length ps < room
    → length ps + 1 < turns
    → (spans : List Span) × (fill_loop turns str (slash ∷ []) room pos ≡ some (ok spans))
      × (map (span_bytes str) spans ≡ names_of ps)
unfolding fill_loop
fill_loop-slashes turns str room pos zero ps small le here h space many =
    fill_loop-text turns str room pos ps small le here h space (omega arith)
fill_loop-slashes zero str room pos (suc more) ps small le here h space many = absurd (omega arith)
fill_loop-slashes (suc turns) str room pos (suc more) ps small le here h space many =
    let t = slashes_turn str pos more ps small le here h in
    let (spans, rest, names) =
      fill_loop-text turns str room (pos + 0 + suc more) ps small t.inside t.rests h space
        (omega arith) in
    (spans, rw (more_there str pos more ps small le here h) (rw t.spans (rw t.next rest)), names)

is_absolute-name :
    (name rest : List ℕ) → 0 < length name → All IsPlain name → is_absolute (name ++ rest) ≡ false
unfolding is_absolute cinpat
is_absolute-name [] rest pos h = absurd (omega arith)
is_absolute-name (c ∷ name) rest pos (k, h) = ground (arith, k)

is_absolute-text : (ps : List Part) → IsParts ps → is_absolute (text ps) ≡ false
unfolding text is_absolute
is_absolute-text [] h = refl
is_absolute-text (p ∷ ps) (some_name, plain, _, _) =
    is_absolute-name p.name (replicate p.slashes slash ++ text ps) some_name plain

pub length-names : (ps : List Part) → length (names_of ps) ≡ length ps
length-names [] = refl
length-names (p ∷ ps) = ap suc (length-names ps)

pub count_spans-text :
    (turns : ℕ) (t : Text)
    → IsParts (parts t)
    → length (path_text t) < 2 ^ 31
    → length (parts t) + 1 < turns
    → (c : ℕ) × (count_spans turns (path_text t) (slash ∷ []) ≡ some (length (segments t), c))
unfolding count_spans is_absolute
count_spans-text turns (absolute more ps) h small many =
    let str = path_text (absolute more ps) in
    let (c, counted) =
      count_loop-slashes turns str 1 2 1 more ps (omega (arith, small)) (omega arith) refl h
        (omega (arith, small, length-parts ps h, length-append (replicate more slash) (text ps)))
        many in
    (c, counted ∙ ap (λ n. some (n, c)) (omega (arith, length-names ps)))
count_spans-text turns (relative ps) h small many =
    let (c, counted) =
      count_loop-text turns (text ps) 0 0 0 ps (omega (arith, small)) (omega arith) refl h
        (omega (arith, small, length-parts ps h)) (omega (arith, many)) in
    (
      c,
      rw (is_absolute-text ps h) (counted ∙ ap (λ n. some (n, c)) (omega (arith, length-names ps))),
    )

fill_spans-text :
    (turns : ℕ) (t : Text)
    → IsParts (parts t)
    → length (path_text t) < 2 ^ 31
    → length (parts t) + 1 < turns
    → (spans : List Span) × (fill_spans turns (path_text t) (slash ∷ []) (length (segments t) + 1)
        ≡ some (ok spans))
      × (map (span_bytes (path_text t)) spans ≡ segments t)
unfolding fill_spans is_absolute
fill_spans-text turns (absolute more ps) h small many =
    let str = path_text (absolute more ps) in
    let (spans, filled, names) =
      fill_loop-slashes turns str (length (segments (absolute more ps)) + 1 - 1) 1 more ps
        (omega (arith, small)) (omega arith) refl h (omega (arith, length-names ps)) many in
    (
      record { pos = 0; len = 1 } ∷ spans,
      put_span-ok (length (segments (absolute more ps)) + 1) (record { pos = 0; len = 1 }) _ spans
          (omega arith) filled,
      unfold span_bytes in ap (◌∷◌ (slash ∷ [])) names,
    )
fill_spans-text turns (relative ps) h small many =
    let (spans, filled, names) =
      fill_loop-text turns (text ps) (length (names_of ps) + 1) 0 ps (omega (arith, small))
        (omega arith) refl h (omega (arith, length-names ps)) (omega (arith, many)) in
    (spans, rw (is_absolute-text ps h) filled, names)

pub split_spans-text :
    (turns : ℕ) (t : Text)
    → IsParts (parts t)
    → length (path_text t) < 2 ^ 31
    → length (parts t) + 1 < turns
    → 0 < length (segments t)
    → (spans : List Span) × (split_spans turns (path_text t) (slash ∷ []) ≡ some (ok (some spans)))
      × (map (span_bytes (path_text t)) spans ≡ segments t)
unfolding split_spans
split_spans-text turns t h small many pos =
    let (spans, filled, names) = fill_spans-text turns t h small many in
    let (c, counted) = count_spans-text turns t h small many in
    let there : (length (segments t) == 0) ≡ false = ground (arith, pos) in
    (spans, rw (counted, split_spans) (rw there (rw filled refl)), names)
