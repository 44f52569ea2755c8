-- ===== src/Ucs2/Encode.antt =====
-- src/ucs2.h: the bytes of one unit, as arithmetic.
use efivar.Common.{
  ℕ, ◌+◌, ◌-◌, ◌*◌, ◌/◌, ◌%◌, ◌<◌, ◌≡◌, refl, Bool, true, ◌&&◌, List, [], ◌∷◌, leb, ltb, ◌==◌,
  if◌then◌else◌, holds_below, holds_below-at, arith,
}
use efivar.Common.Bits.{bit_and-field, bit_and-mask, bit_or-shift}
use efivar.Ucs2.{ev_bits, encode_unit, extra_bytes, lead_width, decode_two, decode_three}

-- Where the lead bytes of two and of three bytes lie.
lead_test : ℕ → Bool
lead_test b =
    lead_width b
      == (if leb 0xc0 b && ltb b 0xe0 then 2 else if leb 0xe0 b && ltb b 0xf0 then 3 else 1)
    && (extra_bytes b == lead_width b - 1)

lead_bytes : holds_below lead_test 256 ≡ true
unfolding lead_test lead_width extra_bytes holds_below
lead_bytes = refl

pub lead_width-eq :
    (b : ℕ)
    → b < 256
    → lead_width b
      ≡ (if leb 0xc0 b && ltb b 0xe0 then 2 else if leb 0xe0 b && ltb b 0xf0 then 3 else 1)
unfolding lead_test
lead_width-eq b h = ground (arith, holds_below-at lead_test 256 lead_bytes b h)

pub extra_bytes-eq : (b : ℕ) → b < 256 → extra_bytes b ≡ lead_width b - 1
unfolding lead_test
extra_bytes-eq b h = ground (arith, holds_below-at lead_test 256 lead_bytes b h)

-- The three shapes.
unfoldable pub bytes_of : ℕ → List ℕ
bytes_of c =
    if leb c 0x7f
    then c ∷ []
    else if leb c 0x7ff
    then (0xc0 + c / 64) ∷ (0x80 + c % 64) ∷ []
    else (0xe0 + c / 4096) ∷ (0x80 + c / 64 % 64) ∷ (0x80 + c % 64) ∷ []

pub encode_unit-eq : (c : ℕ) → c < 65536 → encode_unit c ≡ bytes_of c
unfolding encode_unit bytes_of ev_bits
encode_unit-eq c h = ground (
  arith,
  bit_and-field 6 5 c,
  bit_and-field 0 6 c,
  bit_and-field 12 4 c,
  bit_and-field 6 6 c,
  bit_or-shift 5 6 (c / 64 % 32),
  bit_or-shift 6 2 (c % 64),
  bit_or-shift 6 2 (c / 64 % 64),
  bit_or-shift 4 14 (c / 4096 % 16),
)

pub decode_two-eq : (c d : ℕ) → decode_two c d ≡ c % 32 * 64 + d % 64
unfolding decode_two
decode_two-eq c d =
    ground (arith, bit_and-mask 5 c, bit_and-mask 6 d, bit_or-shift 6 (c % 32) (d % 64))

pub decode_three-eq : (c d e : ℕ) → decode_three c d e ≡ c % 16 * 4096 + d % 64 * 64 + e % 64
unfolding decode_three
decode_three-eq c d e = ground (
  arith,
  bit_and-mask 4 c,
  bit_and-mask 6 d,
  bit_and-mask 6 e,
  bit_or-shift 12 (c % 16) (d % 64 * 64),
  bit_or-shift 6 (c % 16 * 64 + d % 64) (e % 64),
)
