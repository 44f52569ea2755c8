-- ===== src/Guid/Order.antt =====
-- `efi_guid_cmp` is the order of one 128-bit number, so it is a total order that `bsearch` can use.
use Prim.Native.Nat.{compare, Ordering}
use efivar.Common.{
  ℕ, ◌+◌, ◌*◌, ◌^◌, ◌<◌, ◌≡◌, ◌↔◌, ◌⊎◌, inl, inr, refl, ap, ◌∙◌, sym, arith, not, true, List, [],
  ◌∷◌, ◌==◌, length, All, if◌then◌else◌,
}
use efivar.Guid.{
  Guid, bswap16, efi_int_cmp, cmp_bytes, e_bytes, efi_guid_cmp, efi_guid_zero, efi_guid_is_zero,
}
use native.Mathlib.Nat.{pow-suc}
use efivar.Common.Words.{IsByte}
use efivar.Guid.Text.{IsGuid, bswap16-lt, bswap16-bswap16}

efi_int_cmp-eq-compare : (a b : ℕ) → efi_int_cmp a b ≡ compare a b
unfolding efi_int_cmp
efi_int_cmp-eq-compare a b = ground arith

lt_trichotomy : (x y : ℕ) → (x < y) ⊎ ((x ≡ y) ⊎ (y < x))
lt_trichotomy x y = ground arith

-- A high part decides the comparison unless the two are equal.
compare_digits :
    (n x y p q : ℕ)
    → p < n
    → q < n
    → compare (x * n + p) (y * n + q) ≡ (if x == y then compare p q else compare x y)
compare_digits n x y p q hp hq = elim (lt_trichotomy x y) [
  | inl l ↦ ground (arith, below x y p q hp l)
  | inr (inl e) ↦ ground (arith, ap (λ (t : ℕ). t * n) e)
  | inr (inr g) ↦ ground (arith, below y x q p hq g)
]
  where
    below : (x y p q : ℕ) → p < n → x < y → x * n + p < y * n + q
    below x y p q hp l = grind arith

-- One field of `efi_guid_cmp` over the result `r` for the fields behind it.
field_cmp :
    (n x y p q : ℕ) {r : Ordering}
    → p < n
    → q < n
    → r ≡ compare p q
    → (if not (x == y) then efi_int_cmp x y else r) ≡ compare (x * n + p) (y * n + q)
field_cmp n x y p q hp hq e = ground (arith, compare_digits n x y p q, efi_int_cmp-eq-compare x y)

-- The bytes as one number, the first the highest.
abbrev big_endian : List ℕ → ℕ
big_endian [] = 0
big_endian (x ∷ xs) = x * 256 ^ length xs + big_endian xs

big_endian-lt : (xs : List ℕ) → All IsByte xs → big_endian xs < 256 ^ length xs
big_endian-lt [] h = omega arith
big_endian-lt (x ∷ xs) h = grind (arith, pow-suc 256 (length xs), big_endian-lt xs h.1, h.0)

cmp_bytes-eq-compare :
    (xs ys : List ℕ)
    → length xs ≡ length ys
    → All IsByte xs
    → All IsByte ys
    → cmp_bytes xs ys ≡ compare (big_endian xs) (big_endian ys)
unfolding cmp_bytes
cmp_bytes-eq-compare [] [] e hx hy = refl
cmp_bytes-eq-compare [] (y ∷ ys) e hx hy = absurd (omega arith)
cmp_bytes-eq-compare (x ∷ xs) [] e hx hy = absurd (omega arith)
cmp_bytes-eq-compare (x ∷ xs) (y ∷ ys) e hx hy =
    let same : length xs ≡ length ys = omega arith in
    rw
      (
        ← same,
        compare_digits (256 ^ length xs) x y (big_endian xs) (big_endian ys) (big_endian-lt xs hx.1)
            (rw same (big_endian-lt ys hy.1)),
      )
      (ground (arith, efi_int_cmp-eq-compare x y, cmp_bytes-eq-compare xs ys same hx.1 hy.1))

bswap16_inj : (x y : ℕ) → x < 2 ^ 16 → y < 2 ^ 16 → (bswap16 x == bswap16 y) ≡ (x == y)
bswap16_inj x y hx hy = ground (arith, bswap16-bswap16 x hx, bswap16-bswap16 y hy)

-- The numbers that the fields from `e`, `d`, `c` and `b` on show.
e_number : Guid → ℕ
e_number g = big_endian (e_bytes g)

d_number : Guid → ℕ
d_number g = bswap16 g.d * 2 ^ 48 + e_number g

c_number : Guid → ℕ
c_number g = g.c * 2 ^ 64 + d_number g

b_number : Guid → ℕ
b_number g = g.b * 2 ^ 80 + c_number g

-- The 128 bits of a GUID in the order in which its text shows them.
pub guid_number : Guid → ℕ
unfolding e_number d_number c_number b_number
guid_number g = g.a * 2 ^ 96 + b_number g

module _ (g : Guid) (h : IsGuid g) where
  e_number-lt : e_number g < 2 ^ 48
  unfolding e_number
  e_number-lt = omega arith

  d_number-lt : d_number g < 2 ^ 64
  unfolding d_number
  d_number-lt = omega (arith, e_number-lt, bswap16-lt g.d h.d_fits)

  c_number-lt : c_number g < 2 ^ 80
  unfolding c_number
  c_number-lt = omega (arith, d_number-lt)

  b_number-lt : b_number g < 2 ^ 96
  unfolding b_number
  b_number-lt = omega (arith, c_number-lt)

module _ (g h : Guid) (hg : IsGuid g) (hh : IsGuid h) where
  -- `efi_guid_cmp` compares two GUIDs, whose fields keep to their widths, as the numbers that their
  -- digits show.
  pub efi_guid_cmp-eq-compare : efi_guid_cmp g h ≡ compare (guid_number g) (guid_number h)
  unfolding efi_guid_cmp guid_number b_number c_number d_number e_number
  efi_guid_cmp-eq-compare =
      field_cmp (2 ^ 96) g.a h.a (b_number g) (b_number h) (b_number-lt g hg) (b_number-lt h hh) (
        field_cmp (2 ^ 80) g.b h.b (c_number g) (c_number h) (c_number-lt g hg) (c_number-lt h hh) (
          field_cmp (2 ^ 64) g.c h.c (d_number g) (d_number h) (d_number-lt g hg) (d_number-lt h hh)
            (rw (← bswap16_inj g.d h.d hg.d_fits hh.d_fits) (
              field_cmp (2 ^ 48) (bswap16 g.d) (bswap16 h.d) (e_number g) (e_number h)
                (e_number-lt g hg) (e_number-lt h hh)
                (cmp_bytes-eq-compare (e_bytes g) (e_bytes h) refl (omega arith) (omega arith))))))

module _ (g h : Guid) (hg : IsGuid g) (hh : IsGuid h) where
  e_number_inj :
      e_number g ≡ e_number h
      → (g.e0 ≡ h.e0)
        × (g.e1 ≡ h.e1)
        × (g.e2 ≡ h.e2)
        × (g.e3 ≡ h.e3)
        × (g.e4 ≡ h.e4)
        × (g.e5 ≡ h.e5)
  unfolding e_number
  e_number_inj e = omega arith

  -- The parts of equal numbers, from the top.
  number_parts :
      guid_number g ≡ guid_number h
      → (g.a ≡ h.a)
        × (g.b ≡ h.b)
        × (g.c ≡ h.c)
        × (bswap16 g.d ≡ bswap16 h.d)
        × (e_number g ≡ e_number h)
  unfolding guid_number b_number c_number d_number
  number_parts e = omega (
    arith,
    e_number-lt g hg,
    e_number-lt h hh,
    bswap16-lt g.d hg.d_fits,
    bswap16-lt h.d hh.d_fits,
  )

  guid_number_inj : guid_number g ≡ guid_number h → g ≡ h
  guid_number_inj e =
      let (a, b, c, d, n) = number_parts e in
      let (e0, e1, e2, e3, e4, e5) = e_number_inj n in
      let d' : g.d ≡ h.d =
        sym (bswap16-bswap16 g.d hg.d_fits) ∙ ap bswap16 d ∙ bswap16-bswap16 h.d hh.d_fits in
      λ i. record {
        a = a i;
        b = b i;
        c = c i;
        d = d' i;
        e0 = e0 i;
        e1 = e1 i;
        e2 = e2 i;
        e3 = e3 i;
        e4 = e4 i;
        e5 = e5 i;
      }

-- On GUIDs in range `efi_guid_cmp` is 0 exactly at equal ones, it changes its sign when they are swapped,
-- and -1 is transitive.
efi_guid_cmp_order :
    (g h k : Guid)
    → IsGuid g
    → IsGuid h
    → IsGuid k
    → ((efi_guid_cmp g h ≡ Ordering.eq) ↔ (g ≡ h))
      × ((efi_guid_cmp g h ≡ Ordering.lt) ↔ (efi_guid_cmp h g ≡ Ordering.gt))
      × (efi_guid_cmp g h ≡ Ordering.lt
          → efi_guid_cmp h k ≡ Ordering.lt
          → efi_guid_cmp g k ≡ Ordering.lt)
efi_guid_cmp_order g h k hg hh hk =
    let gh = efi_guid_cmp-eq-compare g h hg hh in
    let hg' = efi_guid_cmp-eq-compare h g hh hg in
    let hk' = efi_guid_cmp-eq-compare h k hh hk in
    let gk = efi_guid_cmp-eq-compare g k hg hk in
    (
      (
        (λ e. guid_number_inj g h hg hh (ground arith)),
        (λ e. rw e (efi_guid_cmp-eq-compare h h hh hh ∙ ground arith)),
      ),
      ((λ e. ground arith), (λ e. ground arith)),
      (λ l m. ground arith),
    )

-- On GUIDs in range `efi_guid_is_zero` holds of the zero GUID and of no other.
efi_guid_is_zero_iff : (g : Guid) → IsGuid g → (efi_guid_is_zero g ≡ true) ↔ (g ≡ efi_guid_zero)
unfolding efi_guid_is_zero
efi_guid_is_zero_iff g h =
    let same = (efi_guid_cmp_order g efi_guid_zero g h (omega arith) h).0 in
    ((λ e. same.0 (ground arith)), (λ e. ground (arith, same.1 e)))
