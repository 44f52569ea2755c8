-- ===== src/PathHelpers/Tests.antt =====
-- Concrete paths, and the theorem at one.
use efivar.Common.{◌-◌, ◌^◌, ◌≡◌, refl, arith, some, [], ◌∷◌}
use efivar.Common.Outcome.{ok, err, enoent}
use efivar.PathHelpers.{
  slash, cinpat, count_spans, next_pos, split_spans, fill_spans, pick_span, copied, pathseg,
}
use efivar.PathHelpers.Text.{text, IsParts}
use efivar.PathHelpers.Split.{Text, absolute, parts, path_text, segments}
use efivar.PathHelpers.Segments.{segment_at, pathseg-segment_at}

-- /ab//c/
abbrev sample : Text
sample = absolute 0 (
    record { name = 0x61 ∷ 0x62 ∷ []; slashes = 2 } ∷ record { name = 0x63 ∷ []; slashes = 1 } ∷ [])

sample-IsParts : IsParts (parts sample)
unfolding cinpat
sample-IsParts = (
  omega arith,
  (refl, (refl, tt)),
  (λ _. omega arith),
  (omega arith, (refl, tt), (λ _. omega arith), tt),
)

pathseg-segment_at_example :
    pathseg 4 (path_text sample) (2 ^ 32 - 1) ≡ some (segment_at (segments sample) (2 ^ 32 - 1))
unfolding text
pathseg-segment_at_example =
    pathseg-segment_at 4 sample (2 ^ 32 - 1) sample-IsParts (omega arith) (omega arith)
      (omega arith)

last_segment :
    pathseg 4 (slash ∷ 0x61 ∷ slash ∷ slash ∷ 0x63 ∷ slash ∷ []) (2 ^ 32 - 1)
    ≡ some (ok (0x63 ∷ []))
unfolding pathseg split_spans count_spans next_pos fill_spans pick_span copied
last_segment = refl

missing_segment : pathseg 4 (0x61 ∷ slash ∷ 0x63 ∷ []) 2 ≡ some (err enoent)
unfolding pathseg split_spans count_spans next_pos fill_spans pick_span
missing_segment = refl

counted_spans :
    count_spans 4 (slash ∷ 0x61 ∷ slash ∷ slash ∷ 0x63 ∷ slash ∷ []) (slash ∷ []) ≡ some (3, 6)
unfolding count_spans next_pos
counted_spans = refl
