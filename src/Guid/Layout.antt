-- ===== src/Guid/Layout.antt =====
-- `efi_guid_t` of src/include/efivar/efivar-types.h as the 16 bytes of memory that a `memcpy` moves.
use efivar.Common.{ℕ, ◌≡◌, refl, List, [], ◌∷◌, ◌++◌, length, take, drop, get_or, arith, All}
use efivar.Common.Words.{IsByte}
use efivar.Common.Memory.{le_bytes, le_value, le_value-le_bytes}
use efivar.Guid.{Guid}
use efivar.Guid.Text.{IsGuid}

unfoldable pub guid_bytes : Guid → List ℕ
guid_bytes g =
    le_bytes 4 g.a
    ++ (le_bytes 2 g.b
        ++ (le_bytes 2 g.c ++ (le_bytes 2 g.d ++ (g.e0 ∷ g.e1 ∷ g.e2 ∷ g.e3 ∷ g.e4 ∷ g.e5 ∷ []))))

unfoldable pub guid_of_bytes : List ℕ → Guid
guid_of_bytes bs = record {
  a = le_value (take 4 bs);
  b = le_value (take 2 (drop 4 bs));
  c = le_value (take 2 (drop 6 bs));
  d = le_value (take 2 (drop 8 bs));
  e0 = get_or bs 10 0;
  e1 = get_or bs 11 0;
  e2 = get_or bs 12 0;
  e3 = get_or bs 13 0;
  e4 = get_or bs 14 0;
  e5 = get_or bs 15 0;
}

pub length-guid_bytes : (g : Guid) → length (guid_bytes g) ≡ 16
unfolding guid_bytes le_bytes
length-guid_bytes g = refl

pub guid_bytes-All : (g : Guid) → IsGuid g → All IsByte (guid_bytes g)
unfolding guid_bytes le_bytes
guid_bytes-All g h = omega arith

pub guid_of_bytes-guid_bytes : (g : Guid) → IsGuid g → guid_of_bytes (guid_bytes g) ≡ g
unfolding guid_of_bytes guid_bytes le_bytes
guid_of_bytes-guid_bytes g h =
    let pa : le_value (le_bytes 4 g.a) ≡ g.a = le_value-le_bytes 4 g.a (omega arith) in
    let pb : le_value (le_bytes 2 g.b) ≡ g.b = le_value-le_bytes 2 g.b (omega arith) in
    let pc : le_value (le_bytes 2 g.c) ≡ g.c = le_value-le_bytes 2 g.c (omega arith) in
    let pd : le_value (le_bytes 2 g.d) ≡ g.d = le_value-le_bytes 2 g.d (omega arith) in
    λ i. record {
      a = pa i;
      b = pb i;
      c = pc i;
      d = pd i;
      e0 = g.e0;
      e1 = g.e1;
      e2 = g.e2;
      e3 = g.e3;
      e4 = g.e4;
      e5 = g.e5;
    }
