-- ===== src/Ucs2/RoundTrip.antt =====
-- src/ucs2.h: `utf8_to_ucs2` behind `ucs2_to_utf8`.
use efivar.Common.{
  ℕ, ◌+◌, ◌*◌, ◌/◌, ◌%◌, ◌≤◌, ◌<◌, ◌≡◌, true, List, [], ◌∷◌, ◌++◌, length, arith, none, All,
  append_assoc, length-append,
}
use efivar.Common.Bits.{bit_and-mask}
use efivar.Common.Outcome.{ok, ◌>>=◌}
use efivar.Ucs2.{
  Written, written, decode_unit, utf8len, utf8_to_ucs2_from, utf8_to_ucs2, ucs2_to_utf8,
}
use efivar.Ucs2.Encode.{bytes_of, lead_width-eq, decode_two-eq, decode_three-eq}
use efivar.Ucs2.Lengths.{IsUnit, utf8_of, ucs2_to_utf8-eq, utf8len_from-string}

decode_unit-seven : (c : ℕ) (rest : List ℕ) → c ≤ 0x7f → decode_unit c rest ≡ ok c
unfolding decode_unit
decode_unit-seven c rest h = ground (arith, lead_width-eq c, bit_and-mask 7 c)

decode_unit-two :
    (c : ℕ) (rest : List ℕ)
    → c ≤ 0x7ff
    → decode_unit (0xc0 + c / 64) ((0x80 + c % 64) ∷ rest) ≡ ok c
unfolding decode_unit
decode_unit-two c rest h =
    ground (arith, lead_width-eq (0xc0 + c / 64), decode_two-eq (0xc0 + c / 64) (0x80 + c % 64))

decode_unit-three :
    (c : ℕ) (rest : List ℕ)
    → c < 65536
    → decode_unit (0xe0 + c / 4096) ((0x80 + c / 64 % 64) ∷ (0x80 + c % 64) ∷ rest) ≡ ok c
unfolding decode_unit
decode_unit-three c rest h = ground (
  arith,
  lead_width-eq (0xe0 + c / 4096),
  decode_three-eq (0xe0 + c / 4096) (0x80 + c / 64 % 64) (0x80 + c % 64),
)

-- One turn of the loop per unit.
utf8_to_ucs2_from-unit :
    (size i c : ℕ) (rest : List ℕ)
    → IsUnit c
    → i < size
    → utf8_to_ucs2_from size i 0 (bytes_of c ++ rest)
      ≡ (utf8_to_ucs2_from size (i + length (bytes_of c)) 0 rest >>= λ out. ok (c ∷ out))
unfolding utf8_to_ucs2_from bytes_of
utf8_to_ucs2_from-unit size i c rest h lt = ground (
  arith,
  lead_width-eq c,
  lead_width-eq (0xc0 + c / 64),
  lead_width-eq (0xe0 + c / 4096),
  decode_unit-seven c rest,
  decode_unit-two c rest,
  decode_unit-three c rest,
)

bytes_of-pos : (c : ℕ) → 0 < length (bytes_of c)
unfolding bytes_of
bytes_of-pos c = ground arith

utf8_to_ucs2_from-string :
    (size i : ℕ) (s rest : List ℕ)
    → All IsUnit s
    → i + length (utf8_of s) ≤ size
    → utf8_to_ucs2_from size i 0 (utf8_of s ++ (0 ∷ rest)) ≡ ok s
unfolding utf8_of
utf8_to_ucs2_from-string size i [] rest h le = unfold utf8_to_ucs2_from in ground arith
utf8_to_ucs2_from-string size i (c ∷ cs) rest h le = ground (
  arith,
  append_assoc (bytes_of c) (utf8_of cs) (0 ∷ rest),
  length-append (bytes_of c) (utf8_of cs),
  bytes_of-pos c,
  utf8_to_ucs2_from-unit size i c (utf8_of cs ++ (0 ∷ rest)) h.0,
  utf8_to_ucs2_from-string size (i + length (bytes_of c)) cs rest h.1,
)

written-string :
    (s : List ℕ) → written (s ++ (0 ∷ [])) ≡ record { rc = length s + 1; units = s ++ (0 ∷ []) }
unfolding written
written-string s = rw (length-append s (0 ∷ []))

pub utf8_to_ucs2-string :
    (size : ℕ) (s rest : List ℕ)
    → All IsUnit s
    → 0 < length s
    → length (utf8_of s) ≤ size
    → 2 * length s + 1 ≤ size
    → utf8_to_ucs2 size true (utf8_of s ++ (0 ∷ rest))
      ≡ ok (record { rc = length s + 1; units = s ++ (0 ∷ []) })
unfolding utf8_to_ucs2 utf8len
utf8_to_ucs2-string size s rest h pos fits room = ground (
  arith,
  utf8len_from-string 0 0 s rest h,
  utf8_to_ucs2_from-string size 0 s rest h (omega arith),
  written-string s,
)

-- A string of non-zero 16-bit units that `ucs2_to_utf8` turns to UTF-8 comes back from `utf8_to_ucs2`,
-- terminator included, if the string is not empty and the size given is at least the number of UTF-8 bytes and at least
-- one more than twice the number of units.
pub utf8_to_ucs2-ucs2_to_utf8 :
    (size : ℕ) (s rest : List ℕ)
    → All IsUnit s
    → 0 < length s
    → length (utf8_of s) ≤ size
    → 2 * length s + 1 ≤ size
    → (ucs2_to_utf8 (s ++ (0 ∷ rest)) none >>= λ out. utf8_to_ucs2 size true (out ++ (0 ∷ [])))
      ≡ ok (record { rc = length s + 1; units = s ++ (0 ∷ []) })
utf8_to_ucs2-ucs2_to_utf8 size s rest h pos fits room = ground (
  arith,
  ucs2_to_utf8-eq s rest h,
  utf8_to_ucs2-string size s [] h pos fits room,
  length-append s (0 ∷ []),
)

-- The size check lets one byte too few through: a string whose UTF-8 has at most `2 * n + 1` bytes, `n`
-- its number of units and not 0, is accepted at that size, and what is stored takes `2 * n + 2` bytes.
pub utf8_to_ucs2_overflows :
    (s rest : List ℕ)
    → All IsUnit s
    → 0 < length s
    → length (utf8_of s) ≤ 2 * length s + 1
    → (w : Written) × (utf8_to_ucs2 (2 * length s + 1) true (utf8_of s ++ (0 ∷ rest)) ≡ ok w)
      × (2 * length w.units ≡ (2 * length s + 1) + 1)
utf8_to_ucs2_overflows s rest h pos fits = (
  record { rc = length s + 1; units = s ++ (0 ∷ []) },
  utf8_to_ucs2-string (2 * length s + 1) s rest h pos fits (omega arith),
  omega (arith, length-append s (0 ∷ [])),
)
