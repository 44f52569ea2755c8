-- ===== src/PathHelpers.antt =====
-- src/path-helpers.c and src/path-helpers.h: the segments of a path. A string is the list of its characters before the NUL, a
-- pointer into it an offset. An `int` is its 32 bits. A loop takes a number of turns, and returns `none` where it still runs.
pub mod Text
pub mod Spans
pub mod Split
pub mod Segments
mod Tests
use efivar.Common.{
  ℕ, zero, suc, ◌+◌, ◌-◌, ◌^◌, Bool, true, false, ◌||◌, Option, none, some, List, [], ◌∷◌, take,
  drop, length, leb, ◌==◌, if◌then◌else◌,
}
use efivar.Common.Words.{u32}
use efivar.Common.Outcome.{Outcome, ok, err, fault, enoent, ◌>>>=◌}

unfoldable pub cinpat : ℕ → List ℕ → Bool
cinpat c [] = false
cinpat c (p ∷ pat) = p == c || cinpat c pat

unfoldable pub strxcspn : List ℕ → List ℕ → ℕ
unfolding cinpat
strxcspn [] pattern = 0
strxcspn (c ∷ s) pattern = let rest = strxcspn s pattern in if cinpat c pattern then rest + 1 else 0

-- `strcspn` of the C library.
unfoldable pub strcspn : List ℕ → List ℕ → ℕ
unfolding cinpat
strcspn [] reject = 0
strcspn (c ∷ s) reject = let rest = strcspn s reject in if cinpat c reject then 0 else rest + 1

-- `struct span`
pub record Span : Type 0 where
  pub pos : ℕ
  pub len : ℕ

abbrev pub slash : ℕ
slash = 0x2f

-- `str[0] == '/'`
unfoldable pub is_absolute : List ℕ → Bool
is_absolute [] = false
is_absolute (c ∷ s) = c == slash

-- `!str[pos]`, of the rest of the string.
unfoldable pub at_nul : List ℕ → Bool
at_nul [] = true
at_nul (c ∷ s) = false

-- The position that a turn of the loop of either function leaves.
unfoldable pub next_pos : List ℕ → List ℕ → ℕ → ℕ
unfolding strcspn strxcspn
next_pos str reject pos =
    let after = u32 (pos + strcspn (drop pos str) reject) in
    u32 (after + strxcspn (drop after str) reject)

-- The loop of `count_spans`: the spans, and the characters for them.
unfoldable pub count_loop : ℕ → List ℕ → List ℕ → ℕ → ℕ → ℕ → Option (ℕ × ℕ)
unfolding strcspn at_nul
count_loop zero str reject s c pos = none
count_loop (suc turns) str reject s c pos =
    let n = strcspn (drop pos str) reject in
    let rest =
      count_loop turns str reject (if n == 0 then s else u32 (s + 1))
        (if n == 0 then c else u32 (c + (n + 1))) (next_pos str reject pos) in
    if at_nul (drop pos str) then some (s, c) else rest

unfoldable pub count_spans : ℕ → List ℕ → List ℕ → Option (ℕ × ℕ)
unfolding is_absolute count_loop
count_spans turns str reject =
    if is_absolute str then count_loop turns str reject 1 2 1 else count_loop turns str reject 0 0 0

-- A span that is written where the buffer has room for so many, and those behind it.
unfoldable pub put_span : ℕ → Span → Option (Outcome (List Span)) → Option (Outcome (List Span))
put_span room span rest =
    if room == 0 then some fault else (rest >>>= λ spans. some (ok (span ∷ spans)))

-- The loop of `fill_spans`, and the span of NULL behind all others.
unfoldable pub fill_loop : ℕ → List ℕ → List ℕ → ℕ → ℕ → Option (Outcome (List Span))
unfolding strcspn at_nul
fill_loop zero str reject room pos = none
fill_loop (suc turns) str reject room pos =
    let n = strcspn (drop pos str) reject in
    let rest =
      fill_loop turns str reject (if n == 0 then room else room - 1) (next_pos str reject pos) in
    if at_nul (drop pos str)
    then some (if room == 0 then fault else ok [])
    else if n == 0
    then rest
    else put_span room (record { pos = pos; len = n }) rest

unfoldable pub fill_spans : ℕ → List ℕ → List ℕ → ℕ → Option (Outcome (List Span))
unfolding is_absolute fill_loop put_span
fill_spans turns str reject room =
    if is_absolute str
    then put_span room (record { pos = 0; len = 1 }) (fill_loop turns str reject (room - 1) 1)
    else fill_loop turns str reject room 0

-- The macro `split_spans`; NULL is an `ok none`.
unfoldable pub split_spans : ℕ → List ℕ → List ℕ → Option (Outcome (Option (List Span)))
split_spans turns str reject = elim (count_spans turns str (slash ∷ [])) [
  | none ↦ none
  | some (s, c) ↦
      if s == 0
      then some (ok none)
      else (fill_spans turns str reject (s + 1) >>>= λ spans. some (ok (some spans)))
]

unfoldable pub nth_span : List Span → ℕ → Outcome (Option Span)
nth_span [] i = err enoent
nth_span (span ∷ spans) zero = ok (some span)
nth_span (span ∷ spans) (suc i) = nth_span spans i

-- The end of `find_path_segment`.
unfoldable pub pick_span : List Span → ℕ → Outcome (Option Span)
unfolding nth_span
pick_span spans segment =
    let nspans = length spans in
    let i = if leb (2 ^ 31) segment then u32 (nspans + segment) else segment in
    if nspans == 0 || (leb (2 ^ 31) i || leb nspans i) then err enoent else nth_span spans i

unfoldable pub find_path_segment : ℕ → List ℕ → ℕ → Option (Outcome (Option Span))
find_path_segment turns path segment = split_spans turns path (slash ∷ []) >>>= λ r. elim r [
  | none ↦ some (ok none)
  | some spans ↦ some (pick_span spans segment)
]

unfoldable pub span_bytes : List ℕ → Span → List ℕ
span_bytes path span = take span.len (drop span.pos path)

-- What `pathseg` copies.
unfoldable pub copied : List ℕ → Option Span → Option (Outcome (List ℕ))
unfolding span_bytes
copied path none = some (ok [])
copied path (some span) = some (ok (span_bytes path span))

-- The macro `pathseg`, whose NULL is the error here.
unfoldable pub pathseg : ℕ → List ℕ → ℕ → Option (Outcome (List ℕ))
unfolding find_path_segment
pathseg turns path segment = find_path_segment turns path segment >>>= copied path
