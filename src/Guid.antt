-- ===== src/Guid.antt =====
-- src/guid.h and src/guid.c: GUIDs, their text form and their order, on a little-endian machine.
-- Text is a list of character codes without its NUL.
pub mod Text
pub mod Layout
pub mod Order
mod Tests
use Prim.Native.Nat.{Ordering}
use efivar.Common.{
  ℕ, zero, suc, ◌+◌, ◌-◌, ◌*◌, ◌/◌, ◌%◌, ◌^◌, Bool, true, false, not, ◌&&◌, ◌||◌, Option, none,
  some, List, [], ◌∷◌, ◌++◌, length, get_or, take, drop, ltb, leb, ◌==◌, if◌then◌else◌, bit_or,
}

-- `efi_guid_t`. The field `d` holds the two bytes in the order of the text, so as a number it is swapped.
pub record Guid : Type 0 where
  pub a : ℕ
  pub b : ℕ
  pub c : ℕ
  pub d : ℕ
  pub e0 : ℕ
  pub e1 : ℕ
  pub e2 : ℕ
  pub e3 : ℕ
  pub e4 : ℕ
  pub e5 : ℕ

-- `__builtin_bswap16`
unfoldable pub bswap16 : ℕ → ℕ
bswap16 x = x % 256 * 256 + x / 256

-- A digit of `%x`.
pub hex_digit : ℕ → ℕ
hex_digit n = if ltb n 10 then n + b'0' else n - 10 + b'a'

-- `%0<w>x` of a number that has at most `w` digits, before `rest`.
pub format_hex : ℕ → ℕ → List ℕ → List ℕ
unfolding hex_digit
format_hex zero n rest = rest
format_hex (suc w) n rest = format_hex w (n / 16) (hex_digit (n % 16) ∷ rest)

-- What `GUID_FORMAT` with `GUID_FORMAT_ARGS(guid)` prints, before `rest`.
pub format_guid : Guid → List ℕ → List ℕ
unfolding format_hex bswap16
format_guid g rest = format_hex 8 g.a (
    b'-'
    ∷ format_hex 4 g.b (
        b'-'
        ∷ format_hex 4 g.c (
            b'-'
            ∷ format_hex 4 (bswap16 g.d) (
                b'-'
                ∷ format_hex 2 g.e0 (
                    format_hex 2 g.e1 (
                      format_hex 2 g.e2
                        (format_hex 2 g.e3 (format_hex 2 g.e4 (format_hex 2 g.e5 rest)))))))))

pub efi_guid_to_str : Guid → List ℕ
efi_guid_to_str g = format_guid g []

pub real_isspace : ℕ → Bool
real_isspace c = c == 32 || c == 12 || c == 10 || c == 13 || c == 9 || c == 11

-- The character at a place, 0 (the NUL) from the end on.
abbrev pub char_at : List ℕ → ℕ → ℕ
char_at text i = get_or text i 0

pub check_sanity : List ℕ → ℕ → Bool
unfolding real_isspace
check_sanity text len =
    if ltb len 36
    then false
    else if ltb 36 len && not (real_isspace (char_at text 36))
    then false
    else char_at text 8 == b'-'
      && char_at text 13 == b'-'
      && char_at text 18 == b'-'
      && char_at text 23 == b'-'

pub is_hex : ℕ → Bool
is_hex c = (leb b'0' c && leb c b'9') || (leb b'a' (bit_or c 0x20) && leb (bit_or c 0x20) b'f')

pub check_segment_sanity : List ℕ → Bool
unfolding is_hex
check_segment_sanity [] = true
check_segment_sanity (c ∷ rest) = is_hex c && check_segment_sanity rest

-- A digit as `strtoul` reads it in base 16.
pub digit_value : ℕ → ℕ
digit_value c = if leb c b'9' then c - b'0' else bit_or c 0x20 - b'a' + 10

-- `strtoul(segment, NULL, 16)` of a segment that holds hexadecimal digits alone.
pub strtoul16 : ℕ → List ℕ → ℕ
unfolding digit_value
strtoul16 acc [] = acc
strtoul16 acc (c ∷ rest) = strtoul16 (acc * 16 + digit_value c) rest

infixl 5 ◌>>=◌
abbrev ◌>>=◌ {ℓ κ} : {A : Type ℓ} {B : Type κ} → Option A → (A → Option B) → Option B
none >>= f = none
some a >>= f = f a

-- `memcpy`, `check_segment_sanity` and `strtoul` on the `len` characters from `at` on.
pub segment : List ℕ → ℕ → ℕ → Option ℕ
unfolding check_segment_sanity strtoul16
segment text at len =
    let seg = take len (drop at text) in
    if check_segment_sanity seg then some (strtoul16 0 seg) else none

-- `text_to_guid` behind the test for braces.
pub parse_segments : List ℕ → Option Guid
unfolding segment
parse_segments text = do
  a ← segment text 0 8
  b ← segment text 9 4
  c ← segment text 14 4
  d ← segment text 19 4
  e0 ← segment text 24 2
  e1 ← segment text 26 2
  e2 ← segment text 28 2
  e3 ← segment text 30 2
  e4 ← segment text 32 2
  e5 ← segment text 34 2
  some (record {
    a = a;
    b = b;
    c = c;
    d = bswap16 d;
    e0 = e0;
    e1 = e1;
    e2 = e2;
    e3 = e3;
    e4 = e4;
    e5 = e5;
  })

-- `text_to_guid`. `none` is -1 with EINVAL; the fields that the code has written by then are not kept.
pub text_to_guid : List ℕ → Option Guid
text_to_guid text =
    let textlen = length text in
    if textlen == 38
    then (if char_at text 0 == b'{' && char_at text (textlen - 1) == b'}'
        then (if check_sanity (drop 1 text) (textlen - 2)
            then parse_segments (drop 1 text)
            else none)
        else none)
    else (if check_sanity text textlen then parse_segments text else none)

-- `efi_int_cmp_`: `lt` is -1, `eq` is 0 and `gt` is 1.
pub efi_int_cmp : ℕ → ℕ → Ordering
efi_int_cmp a b = if ltb a b then Ordering.lt else if ltb b a then Ordering.gt else Ordering.eq

-- The loop of `efi_guid_cmp_` over the last six bytes.
unfoldable pub cmp_bytes : List ℕ → List ℕ → Ordering
unfolding efi_int_cmp
cmp_bytes [] ys = Ordering.eq
cmp_bytes (x ∷ xs) [] = Ordering.eq
cmp_bytes (x ∷ xs) (y ∷ ys) = let rest = cmp_bytes xs ys in if x == y then rest else efi_int_cmp x y

abbrev pub e_bytes : Guid → List ℕ
e_bytes g = g.e0 ∷ g.e1 ∷ g.e2 ∷ g.e3 ∷ g.e4 ∷ g.e5 ∷ []

unfoldable pub efi_guid_cmp : Guid → Guid → Ordering
unfolding cmp_bytes bswap16
efi_guid_cmp g h =
    if not (g.a == h.a)
    then efi_int_cmp g.a h.a
    else if not (g.b == h.b)
    then efi_int_cmp g.b h.b
    else if not (g.c == h.c)
    then efi_int_cmp g.c h.c
    else if not (g.d == h.d)
    then efi_int_cmp (bswap16 g.d) (bswap16 h.d)
    else cmp_bytes (e_bytes g) (e_bytes h)

abbrev pub efi_guid_zero : Guid
efi_guid_zero = record {
  a = 0;
  b = 0;
  c = 0;
  d = 0;
  e0 = 0;
  e1 = 0;
  e2 = 0;
  e3 = 0;
  e4 = 0;
  e5 = 0;
}

-- `!efi_guid_cmp(guid, &efi_guid_zero)`
pub efi_guid_is_zero : Guid → Bool
efi_guid_is_zero g = elim (efi_guid_cmp g efi_guid_zero) [ Ordering.eq ↦ true | _ ↦ false ]
