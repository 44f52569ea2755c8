-- ===== src/Crc32/Laws.antt =====
-- The table-driven CRC against the shift register, and which errors it detects.
use efivar.Common.{
  ℕ, zero, suc, ◌-◌, ◌/◌, ◌%◌, ◌^◌, ◌<◌, ◌≡◌, ◌≢◌, refl, ap, ◌∙◌, sym, arith, List, [], ◌∷◌, ◌++◌,
  bit_xor, All, All-append,
}
use efivar.Common.Bits.{
  bit_xor_step, bit_xor_comm, zero-bit_xor, bit_xor_cancel, bit_xor-lt, bit_xor-div_pow,
}
use efivar.Common.Words.{IsByte}
use efivar.Crc32.{update, crc32, efi_crc32}
use efivar.Crc32.Step.{poly, poly_step, poly_steps, update-eq-poly_steps}

-- The message goes through the register one byte at a time, eight steps for each.
abbrev pub register : List ℕ → ℕ → ℕ
register [] val = val
register (b ∷ rest) val = register rest (poly_steps 8 (bit_xor val b))

pub crc32-eq-register :
    (buf : List ℕ) (seed : ℕ) → All IsByte buf → crc32 buf seed ≡ register buf seed
unfolding crc32
crc32-eq-register [] seed h = refl
crc32-eq-register (b ∷ rest) seed h =
    rw (update-eq-poly_steps seed b h.0)
      (crc32-eq-register rest (poly_steps 8 (bit_xor seed b)) h.1)

-- On every buffer of bytes the function with the table returns the register of the bit-by-bit CRC with
-- the polynomial 0xedb88320, started from all ones and inverted at the end.
pub efi_crc32-eq-register :
    (buf : List ℕ)
    → All IsByte buf
    → efi_crc32 buf ≡ bit_xor (register buf (2 ^ 32 - 1)) (2 ^ 32 - 1)
unfolding efi_crc32
efi_crc32-eq-register buf h =
    ap (λ (t : ℕ). bit_xor t (2 ^ 32 - 1)) (crc32-eq-register buf (2 ^ 32 - 1) h)

-- The CRC of a buffer in two parts is that of the second part seeded by that of the first.
pub crc32-append : (xs ys : List ℕ) (seed : ℕ) → crc32 (xs ++ ys) seed ≡ crc32 ys (crc32 xs seed)
unfolding crc32
crc32-append [] ys seed = refl
crc32-append (x ∷ xs) ys seed = crc32-append xs ys (update seed x)

poly_step-lt : (x : ℕ) → x < 2 ^ 32 → poly_step x < 2 ^ 32
unfolding poly_step
poly_step-lt x h = ground (arith, bit_xor-lt 32 (x / 2) poly)

-- A step can be undone: the top bit of the result tells whether the polynomial was added.
poly_step_top : (x : ℕ) → x < 2 ^ 32 → poly_step x / 2 ^ 31 ≡ x % 2
unfolding poly_step
poly_step_top x h = ground (
  arith,
  bit_xor-div_pow 31 (x / 2) poly,
  bit_xor_step (x / 2 / 2 ^ 31) (poly / 2 ^ 31),
  zero-bit_xor 1,
)

poly_step_inj : (x y : ℕ) → x < 2 ^ 32 → y < 2 ^ 32 → poly_step x ≡ poly_step y → x ≡ y
unfolding poly_step
poly_step_inj x y hx hy e = ground (
  arith,
  poly_step_top x hx,
  poly_step_top y hy,
  bit_xor_cancel (x / 2) poly,
  bit_xor_cancel (y / 2) poly,
)

poly_steps-lt : (k x : ℕ) → x < 2 ^ 32 → poly_steps k x < 2 ^ 32
unfolding poly_steps
poly_steps-lt zero x h = h
poly_steps-lt (suc k) x h = poly_steps-lt k (poly_step x) (poly_step-lt x h)

poly_steps_inj : (k x y : ℕ) → x < 2 ^ 32 → y < 2 ^ 32 → poly_steps k x ≡ poly_steps k y → x ≡ y
unfolding poly_steps
poly_steps_inj zero x y hx hy e = e
poly_steps_inj (suc k) x y hx hy e =
    poly_step_inj x y hx hy
      (poly_steps_inj k (poly_step x) (poly_step y) (poly_step-lt x hx) (poly_step-lt y hy) e)

bit_xor_inj : (x y b : ℕ) → bit_xor x b ≡ bit_xor y b → x ≡ y
bit_xor_inj x y b e = cc (bit_xor_cancel x b, bit_xor_cancel y b, e)

register-lt : (buf : List ℕ) (v : ℕ) → All IsByte buf → v < 2 ^ 32 → register buf v < 2 ^ 32
register-lt [] v h hv = hv
register-lt (b ∷ rest) v h hv =
    register-lt rest _ h.1 (poly_steps-lt 8 _ (bit_xor-lt 32 v b hv (omega (arith, h.0))))

register_inj :
    (buf : List ℕ) (v w : ℕ)
    → All IsByte buf
    → v < 2 ^ 32
    → w < 2 ^ 32
    → register buf v ≡ register buf w
    → v ≡ w
register_inj [] v w h hv hw e = e
register_inj (b ∷ rest) v w h hv hw e =
    let lt : (u : ℕ) → u < 2 ^ 32 → bit_xor u b < 2 ^ 32 =
      λ u hu. bit_xor-lt 32 u b hu (omega (arith, h.0)) in
    bit_xor_inj v w b (
      poly_steps_inj 8 _ _ (lt v hv) (lt w hw)
        (register_inj rest _ _ h.1 (poly_steps-lt 8 _ (lt v hv)) (poly_steps-lt 8 _ (lt w hw)) e))

-- The result of `efi_crc32` on bytes is a `uint32_t`.
pub efi_crc32-lt : (buf : List ℕ) → All IsByte buf → efi_crc32 buf < 2 ^ 32
efi_crc32-lt buf h =
    rw (efi_crc32-eq-register buf h)
      (bit_xor-lt 32 _ (2 ^ 32 - 1) (register-lt buf (2 ^ 32 - 1) h (omega arith)) (omega arith))

register-append : (xs ys : List ℕ) (v : ℕ) → register (xs ++ ys) v ≡ register ys (register xs v)
register-append [] ys v = refl
register-append (x ∷ xs) ys v = register-append xs ys (poly_steps 8 (bit_xor v x))

register_detects :
    (front back : List ℕ) (b c v : ℕ)
    → All IsByte front
    → All IsByte back
    → b < 256
    → c < 256
    → v < 2 ^ 32
    → register (front ++ (b ∷ back)) v ≡ register (front ++ (c ∷ back)) v
    → b ≡ c
register_detects front back b c v hf hk hb hc hv e =
    let w : ℕ = register front v in
    let w_lt : w < 2 ^ 32 = register-lt front v hf hv in
    let lt : (d : ℕ) → d < 256 → bit_xor w d < 2 ^ 32 =
      λ d hd. bit_xor-lt 32 w d w_lt (omega arith) in
    let same : bit_xor w b ≡ bit_xor w c = poly_steps_inj 8 _ _ (lt b hb) (lt c hc) (
      register_inj back _ _ hk (poly_steps-lt 8 _ (lt b hb)) (poly_steps-lt 8 _ (lt c hc))
        (sym (register-append front (b ∷ back) v) ∙ e ∙ register-append front (c ∷ back) v)) in
    bit_xor_inj b c w (bit_xor_comm b w ∙ same ∙ bit_xor_comm w c)

-- Two buffers of bytes that differ in exactly one byte, at any place, have different CRCs.
pub efi_crc32_detects_byte :
    (front back : List ℕ) (b c : ℕ)
    → All IsByte front
    → All IsByte back
    → b < 256
    → c < 256
    → b ≢ c
    → efi_crc32 (front ++ (b ∷ back)) ≢ efi_crc32 (front ++ (c ∷ back))
efi_crc32_detects_byte front back b c hf hk hb hc ne e = ne (
    register_detects front back b c (2 ^ 32 - 1) hf hk hb hc (omega arith)
      (bit_xor_inj _ _ (2 ^ 32 - 1) (sym (crc b hb) ∙ e ∙ crc c hc)))
  where
    crc :
        (d : ℕ)
        → d < 256
        → efi_crc32 (front ++ (d ∷ back))
          ≡ bit_xor (register (front ++ (d ∷ back)) (2 ^ 32 - 1)) (2 ^ 32 - 1)
    crc d hd =
        efi_crc32-eq-register (front ++ (d ∷ back)) (All-append IsByte front (d ∷ back) hf (hd, hk))
