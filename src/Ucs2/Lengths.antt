-- ===== src/Ucs2/Lengths.antt =====
-- src/ucs2.h: `ucs2len`, `ucs2_to_utf8` and `utf8len` on a string of units and a NUL.
use efivar.Common.{
  ℕ, ◌+◌, ◌*◌, ◌/◌, ◌≤◌, ◌<◌, ◌≡◌, List, [], ◌∷◌, ◌++◌, length, arith, none, some, All,
  append_assoc,
}
use efivar.Common.Outcome.{ok}
use efivar.Ucs2.{
  utf8len, utf8size, extra_bytes, ucs2len, ucs2len_from, ucs2size, ucs2_to_utf8, ucs2_to_utf8_from,
  utf8len_from,
}
use efivar.Ucs2.Encode.{bytes_of, encode_unit-eq, extra_bytes-eq, lead_width-eq}

-- A unit of a string: not NUL, and within 16 bits.
abbrev pub IsUnit : ℕ → Type 0
IsUnit c = (0 < c) × (c < 65536)

-- UTF-8 of a string, unit by unit.
unfoldable pub utf8_of : List ℕ → List ℕ
utf8_of [] = []
utf8_of (c ∷ cs) = bytes_of c ++ utf8_of cs

pub ucs2len_from-string :
    (i : ℕ) (s rest : List ℕ)
    → All IsUnit s
    → ucs2len_from none i (s ++ (0 ∷ rest)) ≡ ok (i + length s)
unfolding ucs2len_from
ucs2len_from-string i [] rest h = ground arith
ucs2len_from-string i (c ∷ cs) rest h = ground (arith, ucs2len_from-string (i + 1) cs rest)

-- The count of units ends at the NUL, if the limit is not before it.
ucs2len_from-limited :
    (limit i : ℕ) (s rest : List ℕ)
    → All IsUnit s
    → i + length s ≤ limit
    → ucs2len_from (some limit) i (s ++ (0 ∷ rest)) ≡ ok (i + length s)
unfolding ucs2len_from
ucs2len_from-limited limit i [] rest h le = ground arith
ucs2len_from-limited limit i (c ∷ cs) rest h le =
    ground (arith, ucs2len_from-limited limit (i + 1) cs rest)

-- The string and its NUL are in the bytes of the limit, which `ucs2size` takes for a number of units.
pub ucs2size-string :
    (limit : ℕ) (s rest : List ℕ)
    → All IsUnit s
    → 2 * length s + 2 ≤ limit
    → ucs2size (s ++ (0 ∷ rest)) (some limit) ≡ ok (2 * length s + 2)
unfolding ucs2size ucs2len
ucs2size-string limit s rest h le =
    rw (ucs2len_from-limited limit 0 s rest h (omega arith)) (ground arith)

pub ucs2_to_utf8_from-string :
    (limit i : ℕ) (s rest : List ℕ)
    → All IsUnit s
    → i + length s ≤ limit
    → ucs2_to_utf8_from limit i (s ++ (0 ∷ rest)) ≡ ok (utf8_of s)
unfolding ucs2_to_utf8_from utf8_of
ucs2_to_utf8_from-string limit i [] rest h le = ground arith
ucs2_to_utf8_from-string limit i (c ∷ cs) rest h le =
    ground (arith, ucs2_to_utf8_from-string limit (i + 1) cs rest, encode_unit-eq c)

pub ucs2_to_utf8-eq :
    (s rest : List ℕ) → All IsUnit s → ucs2_to_utf8 (s ++ (0 ∷ rest)) none ≡ ok (utf8_of s)
unfolding ucs2_to_utf8 ucs2len
ucs2_to_utf8-eq s rest h =
    ground (arith, ucs2len_from-string 0 s rest h, ucs2_to_utf8_from-string (length s) 0 s rest h)

pub extra_bytes-seven : (c : ℕ) → c ≤ 0x7f → extra_bytes c ≡ 0
extra_bytes-seven c h = ground (arith, extra_bytes-eq c, lead_width-eq c)

extra_bytes-two : (c : ℕ) → c ≤ 0x7ff → 0x7f < c → extra_bytes (0xc0 + c / 64) ≡ 1
extra_bytes-two c h k =
    ground (arith, extra_bytes-eq (0xc0 + c / 64), lead_width-eq (0xc0 + c / 64))

extra_bytes-three : (c : ℕ) → c < 65536 → extra_bytes (0xe0 + c / 4096) ≡ 2
extra_bytes-three c h =
    ground (arith, extra_bytes-eq (0xe0 + c / 4096), lead_width-eq (0xe0 + c / 4096))

utf8len_from-unit :
    (i j c : ℕ) (rest : List ℕ)
    → IsUnit c
    → utf8len_from none i j 0 (bytes_of c ++ rest)
      ≡ utf8len_from none (i + length (bytes_of c)) (j + 1) 0 rest
unfolding utf8len_from bytes_of
utf8len_from-unit i j c rest h =
    ground (arith, extra_bytes-seven c, extra_bytes-two c, extra_bytes-three c)

pub utf8len_from-string :
    (i j : ℕ) (s rest : List ℕ)
    → All IsUnit s
    → utf8len_from none i j 0 (utf8_of s ++ (0 ∷ rest)) ≡ ok (j + length s)
unfolding utf8_of
utf8len_from-string i j [] rest h = unfold utf8len_from in ground arith
utf8len_from-string i j (c ∷ cs) rest h = ground (
  arith,
  append_assoc (bytes_of c) (utf8_of cs) (0 ∷ rest),
  utf8len_from-unit i j c (utf8_of cs ++ (0 ∷ rest)) h.0,
  utf8len_from-string (i + length (bytes_of c)) (j + 1) cs rest h.1,
)

pub utf8size-string :
    (s rest : List ℕ) → All IsUnit s → utf8size (utf8_of s ++ (0 ∷ rest)) none ≡ ok (length s + 1)
unfolding utf8size utf8len
utf8size-string s rest h = ground (arith, utf8len_from-string 0 0 s rest h)
