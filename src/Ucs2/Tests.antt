-- ===== src/Ucs2/Tests.antt =====
-- Concrete conversions, and the theorems at concrete strings.
use efivar.Common.{ℕ, ◌≡◌, refl, true, none, List, [], ◌∷◌, ◌++◌, ◌*◌, length, All, arith}
use efivar.Common.Outcome.{ok, ◌>>=◌}
use efivar.Ucs2.Encode.{bytes_of}
use efivar.Ucs2.Lengths.{IsUnit, utf8_of}
use efivar.Ucs2.RoundTrip.{utf8_to_ucs2-ucs2_to_utf8, utf8_to_ucs2_overflows}
use efivar.Ucs2.{
  ucs2size, utf8len, ucs2_to_utf8, utf8_to_ucs2, utf8_to_ucs2_from, decode_unit, Written,
}

-- "a", the accented e (0xe9), the euro sign (0x20ac)
abbrev units : List ℕ
units = 0x61 ∷ 0xe9 ∷ 0x20ac ∷ 0 ∷ []

abbrev bytes : List ℕ
bytes = 0x61 ∷ 0xc3 ∷ 0xa9 ∷ 0xe2 ∷ 0x82 ∷ 0xac ∷ []

encodes : ucs2_to_utf8 units none ≡ ok bytes
unfolding ucs2_to_utf8
encodes = refl

decodes :
    utf8_to_ucs2 8 true (0x61 ∷ 0xc3 ∷ 0xa9 ∷ 0xe2 ∷ 0x82 ∷ 0xac ∷ 0 ∷ [])
    ≡ ok (record { rc = 4; units = units })
unfolding utf8_to_ucs2 utf8_to_ucs2_from utf8len decode_unit
decodes = refl

utf8_lengths : utf8len (0x61 ∷ 0xc3 ∷ 0xa9 ∷ 0xe2 ∷ 0x82 ∷ 0xac ∷ 0 ∷ []) none ≡ ok 3
unfolding utf8len
utf8_lengths = refl

ucs2_lengths : ucs2size units none ≡ ok 8
unfolding ucs2size
ucs2_lengths = refl

units_IsUnit : All IsUnit (0x61 ∷ 0xe9 ∷ 0x20ac ∷ [])
units_IsUnit = omega arith

round_trip_example :
    (ucs2_to_utf8 (0x61 ∷ 0xe9 ∷ 0x20ac ∷ 0 ∷ 7 ∷ []) none >>= λ out.
    utf8_to_ucs2 8 true (out ++ (0 ∷ [])))
    ≡ ok (record { rc = 4; units = units })
round_trip_example =
    utf8_to_ucs2-ucs2_to_utf8 8 (0x61 ∷ 0xe9 ∷ 0x20ac ∷ []) (7 ∷ []) units_IsUnit (omega arith)
      (unfold utf8_of bytes_of in omega arith) (omega arith)

overflow_example :
    (w : Written) × (utf8_to_ucs2 7 true (0x61 ∷ 0xc3 ∷ 0xa9 ∷ 0xe2 ∷ 0x82 ∷ 0xac ∷ 0 ∷ []) ≡ ok w)
    × (2 * length w.units ≡ 8)
unfolding utf8_of bytes_of
overflow_example =
    utf8_to_ucs2_overflows (0x61 ∷ 0xe9 ∷ 0x20ac ∷ []) [] units_IsUnit (omega arith) (omega arith)
