-- ===== src/Ucs2/Ascii.antt =====
-- src/ucs2.h: strings of ASCII characters.
use efivar.Common.{ℕ, ◌+◌, ◌≤◌, ◌<◌, ◌≡◌, refl, List, [], ◌∷◌, ◌++◌, length, All, arith, some}
use efivar.Common.Outcome.{ok}
use efivar.Ucs2.{utf8len, utf8len_from}
use efivar.Ucs2.Encode.{bytes_of}
use efivar.Ucs2.Lengths.{IsUnit, utf8_of, extra_bytes-seven}

-- A character of 7 bits that is not NUL.
abbrev pub IsAscii : ℕ → Type 0
IsAscii c = (0 < c) × (c < 128)

pub ascii_units : (s : List ℕ) → All IsAscii s → All IsUnit s
ascii_units [] h = tt
ascii_units (c ∷ s) h = (omega arith, ascii_units s h.1)

pub utf8_of-ascii : (s : List ℕ) → All IsAscii s → utf8_of s ≡ s
unfolding utf8_of bytes_of
utf8_of-ascii [] h = refl
utf8_of-ascii (c ∷ s) h = ground (arith, utf8_of-ascii s h.1)

utf8len_from-ascii :
    (limit i j : ℕ) (s rest : List ℕ)
    → All IsAscii s
    → i + length s ≤ limit
    → utf8len_from (some limit) i j 0 (s ++ (0 ∷ rest)) ≡ ok (j + length s)
unfolding utf8len_from
utf8len_from-ascii limit i j [] rest h le = ground arith
utf8len_from-ascii limit i j (c ∷ s) rest h le =
    ground (arith, extra_bytes-seven c, utf8len_from-ascii limit (i + 1) (j + 1) s rest h.1)

-- A limit that the string does not exceed.
pub utf8len-ascii :
    (limit : ℕ) (s rest : List ℕ)
    → All IsAscii s
    → length s ≤ limit
    → utf8len (s ++ (0 ∷ rest)) (some limit) ≡ ok (length s)
unfolding utf8len
utf8len-ascii limit s rest h le =
    ground (arith, utf8len_from-ascii limit 0 0 s rest h (omega arith))
