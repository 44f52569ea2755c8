-- ===== src/PathHelpers/Spans.antt =====
-- src/path-helpers.c: the spans that `count_spans` counts and `fill_spans` writes are the names of the parts of the text.
use efivar.Common.{
  ℕ, zero, suc, ◌+◌, ◌-◌, ◌^◌, ◌≤◌, ◌<◌, ◌≡◌, refl, ap, ap₂, ◌∙◌, true, false, some, Option, List,
  [], ◌∷◌, ◌++◌, take, drop, length, arith, replicate, map, ◌==◌, take-length_append,
}
use efivar.Common.Words.{u32}
use efivar.Common.Outcome.{Outcome, ok}
use efivar.PathHelpers.{slash, at_nul, count_loop, Span, span_bytes, put_span, fill_loop}
use efivar.PathHelpers.Text.{Part, text, IsParts, Turn, turn, strcspn-behind, strxcspn-text}

-- The turn at the first of some parts.
part_turn :
    (str : List ℕ) (pos : ℕ) (p : Part) (ps : List Part)
    → length str < 2 ^ 32
    → pos ≤ length str
    → drop pos str ≡ text (p ∷ ps)
    → IsParts (p ∷ ps)
    → Turn str pos p.name p.slashes (text ps)
unfolding text
part_turn str pos p ps small le here (some_name, plain, between, h) =
    turn str pos p.name p.slashes (text ps) small le here plain
      (strcspn-behind p.slashes ps between) (strxcspn-text ps h)

at_nul-name : (name rest : List ℕ) → 0 < length name → at_nul (name ++ rest) ≡ false
unfolding at_nul
at_nul-name [] rest h = absurd (omega arith)
at_nul-name (c ∷ name) rest h = refl

at_nul-part :
    (s : List ℕ) (p : Part) (ps : List Part)
    → s ≡ text (p ∷ ps)
    → IsParts (p ∷ ps)
    → at_nul s ≡ false
unfolding text
at_nul-part s p ps e h = ap at_nul e ∙ at_nul-name p.name (replicate p.slashes slash ++ text ps) h.0

at_nul-none : (s : List ℕ) → s ≡ text [] → at_nul s ≡ true
unfolding text at_nul
at_nul-none s e = ap at_nul e

pub count_loop-text :
    (turns : ℕ) (str : List ℕ) (s c pos : ℕ) (ps : List Part)
    → length str < 2 ^ 32
    → pos ≤ length str
    → drop pos str ≡ text ps
    → IsParts ps
    → s + length ps < 2 ^ 32
    → length ps < turns
    → (c' : ℕ) × (count_loop turns str (slash ∷ []) s c pos ≡ some (s + length ps, c'))
unfolding count_loop
count_loop-text zero str s c pos ps small le here h few many = absurd (omega arith)
count_loop-text (suc turns) str s c pos [] small le here h few many =
    (c, rw (at_nul-none _ here) (ap (λ n. some (n, c)) (omega arith)))
count_loop-text (suc turns) str s c pos (p ∷ ps) small le here h few many =
    let t = part_turn str pos p ps small le here h in
    let (c', rest) =
      count_loop-text turns str (s + 1) (u32 (c + (length p.name + 1)))
        (pos + length p.name + p.slashes) ps small t.inside t.rests h.3 (omega (arith, few))
        (omega (arith, many)) in
    let named : (length p.name == 0) ≡ false = ground (arith, h.0) in
    let counted : u32 (s + 1) ≡ s + 1 = omega (arith, few) in
    (
      c',
      rw (at_nul-part _ p ps here h) (
          rw t.spans
            (rw t.next (rw named (rw counted (rest ∙ ap (λ n. some (n, c')) (omega arith)))))),
    )

span_bytes-part :
    (str : List ℕ) (pos : ℕ) (name rest : List ℕ)
    → drop pos str ≡ name ++ rest
    → span_bytes str (record { pos = pos; len = length name }) ≡ name
unfolding span_bytes
span_bytes-part str pos name rest here = ap (take (length name)) here ∙ take-length_append name rest

part-span_bytes :
    (str : List ℕ) (pos : ℕ) (p : Part) (ps : List Part)
    → drop pos str ≡ text (p ∷ ps)
    → span_bytes str (record { pos = pos; len = length p.name }) ≡ p.name
unfolding text
part-span_bytes str pos p ps here =
    span_bytes-part str pos p.name (replicate p.slashes slash ++ text ps) here

pub put_span-ok :
    (room : ℕ) (span : Span) (rest : Option (Outcome (List Span))) (spans : List Span)
    → 0 < room
    → rest ≡ some (ok spans)
    → put_span room span rest ≡ some (ok (span ∷ spans))
unfolding put_span
put_span-ok room span rest spans h e = rw e (ground arith)

pub fill_loop-text :
    (turns : ℕ) (str : List ℕ) (room pos : ℕ) (ps : List Part)
    → length str < 2 ^ 32
    → pos ≤ length str
    → drop pos str ≡ text ps
    → IsParts ps
    → length ps < room
    → length ps < turns
    → (spans : List Span) × (fill_loop turns str (slash ∷ []) room pos ≡ some (ok spans))
      × (map (span_bytes str) spans ≡ map (λ (p : Part). p.name) ps)
unfolding fill_loop
fill_loop-text zero str room pos ps small le here h space many = absurd (omega arith)
fill_loop-text (suc turns) str room pos [] small le here h space many =
    ([], rw (at_nul-none _ here) (ground arith), refl)
fill_loop-text (suc turns) str room pos (p ∷ ps) small le here h space many =
    let t = part_turn str pos p ps small le here h in
    let (spans, rest, names) =
      fill_loop-text turns str (room - 1) (pos + length p.name + p.slashes) ps small t.inside
        t.rests h.3 (omega (arith, space)) (omega (arith, many)) in
    let named : (length p.name == 0) ≡ false = ground (arith, h.0) in
    (
      record { pos = pos; len = length p.name } ∷ spans,
      rw (at_nul-part _ p ps here h) (
          rw t.spans (
            rw t.next (
              rw named (
                put_span-ok room (record { pos = pos; len = length p.name }) _ spans
                  (omega (arith, space)) rest)))),
      ap₂ (◌∷◌) (part-span_bytes str pos p ps here) names,
    )
