-- ===== src/Guid/Text.antt =====
-- `text_to_guid` reads what `efi_guid_to_str` writes, and every text that it accepts.
use efivar.Common.{
  length, ℕ, zero, suc, ◌+◌, ◌*◌, ◌/◌, ◌%◌, ◌^◌, ◌<◌, ◌≡◌, refl, ap, ◌∙◌, arith, true, ◌&&◌, some,
  List, [], ◌∷◌, ◌++◌, take, drop, ◌==◌, holds_below, holds_below-at,
}
use native.Mathlib.Nat.{pow-suc}
use efivar.Guid.{
  Guid, bswap16, hex_digit, format_hex, format_guid, efi_guid_to_str, check_sanity, is_hex,
  check_segment_sanity, digit_value, strtoul16, segment, parse_segments, text_to_guid,
}

-- Every field is in the range of its type.
pub record IsGuid (g : Guid) : Type 0 where
  pub a_fits : g.a < 2 ^ 32
  pub b_fits : g.b < 2 ^ 16
  pub c_fits : g.c < 2 ^ 16
  pub d_fits : g.d < 2 ^ 16
  pub e0_fits : g.e0 < 256
  pub e1_fits : g.e1 < 256
  pub e2_fits : g.e2 < 256
  pub e3_fits : g.e3 < 256
  pub e4_fits : g.e4 < 256
  pub e5_fits : g.e5 < 256

digit_table : holds_below (λ n. is_hex (hex_digit n) && digit_value (hex_digit n) == n) 16 ≡ true
unfolding holds_below is_hex hex_digit digit_value
digit_table = refl

hex_digit_lem : (n : ℕ) → n < 16 → (is_hex (hex_digit n) ≡ true) × (digit_value (hex_digit n) ≡ n)
hex_digit_lem n h = ground (
  arith,
  holds_below-at (λ n. is_hex (hex_digit n) && digit_value (hex_digit n) == n) 16 digit_table n h,
)

check-format_hex :
    (w n : ℕ) (rest : List ℕ)
    → check_segment_sanity (format_hex w n rest) ≡ check_segment_sanity rest
unfolding check_segment_sanity format_hex
check-format_hex zero n rest = refl
check-format_hex (suc w) n rest =
    check-format_hex w (n / 16) (hex_digit (n % 16) ∷ rest)
    ∙ rw (hex_digit_lem (n % 16) (omega arith)).0

strtoul16-format_hex :
    (w n acc : ℕ) (rest : List ℕ)
    → n < 16 ^ w
    → strtoul16 acc (format_hex w n rest) ≡ strtoul16 (acc * 16 ^ w + n) rest
unfolding strtoul16 format_hex
strtoul16-format_hex zero n acc rest h = ap (λ (t : ℕ). strtoul16 t rest) (omega arith)
strtoul16-format_hex (suc w) n acc rest h =
    strtoul16-format_hex w (n / 16) acc (hex_digit (n % 16) ∷ rest) (omega (arith, pow-suc 16 w))
    ∙ ap (λ (t : ℕ). strtoul16 t rest)
        (omega (
          arith,
          (hex_digit_lem (n % 16) (omega arith)).1,
          pow-suc 16 w,
          ap (λ (t : ℕ). acc * t) (pow-suc 16 w),
        ))

segment-format_hex :
    (w n at : ℕ) (text : List ℕ)
    → take w (drop at text) ≡ format_hex w n []
    → n < 16 ^ w
    → segment text at w ≡ some n
unfolding segment
segment-format_hex w n at text e h =
    rw (e, check-format_hex w n [], strtoul16-format_hex w n 0 [] h)
      (unfold check_segment_sanity strtoul16 in ground arith)

pub bswap16-lt : (d : ℕ) → d < 2 ^ 16 → bswap16 d < 2 ^ 16
unfolding bswap16
bswap16-lt d h = omega arith

pub bswap16-bswap16 : (d : ℕ) → d < 2 ^ 16 → bswap16 (bswap16 d) ≡ d
unfolding bswap16
bswap16-bswap16 d h = omega arith

parse_segments-format_guid :
    (g : Guid) (rest : List ℕ) → IsGuid g → parse_segments (format_guid g rest) ≡ some g
unfolding parse_segments
parse_segments-format_guid g rest h =
    rw
      (
        segment-format_hex 8 g.a 0 t (unfold format_guid in refl) h.a_fits,
        segment-format_hex 4 g.b 9 t (unfold format_guid in refl) h.b_fits,
        segment-format_hex 4 g.c 14 t (unfold format_guid in refl) h.c_fits,
        segment-format_hex 4 (bswap16 g.d) 19 t (unfold format_guid in refl)
            (bswap16-lt g.d h.d_fits),
        segment-format_hex 2 g.e0 24 t (unfold format_guid in refl) h.e0_fits,
        segment-format_hex 2 g.e1 26 t (unfold format_guid in refl) h.e1_fits,
        segment-format_hex 2 g.e2 28 t (unfold format_guid in refl) h.e2_fits,
        segment-format_hex 2 g.e3 30 t (unfold format_guid in refl) h.e3_fits,
        segment-format_hex 2 g.e4 32 t (unfold format_guid in refl) h.e4_fits,
        segment-format_hex 2 g.e5 34 t (unfold format_guid in refl) h.e5_fits,
      )
      (rw (bswap16-bswap16 g.d h.d_fits))
  where
    t : List ℕ
    t = format_guid g rest

-- `text_to_guid` reads back every GUID whose fields keep to their widths from the text that `efi_guid_to_str` writes, and from that text
-- in braces.
pub text_to_guid-efi_guid_to_str :
    (g : Guid)
    → IsGuid g
    → (text_to_guid (efi_guid_to_str g) ≡ some g)
      × (text_to_guid (b'{' ∷ (efi_guid_to_str g ++ (b'}' ∷ []))) ≡ some g)
unfolding text_to_guid efi_guid_to_str check_sanity format_guid
text_to_guid-efi_guid_to_str g h =
    (parse_segments-format_guid g [] h, parse_segments-format_guid g (b'}' ∷ []) h)

pub length-efi_guid_to_str : (g : Guid) → length (efi_guid_to_str g) ≡ 36
unfolding efi_guid_to_str format_guid format_hex
length-efi_guid_to_str g = refl
