-- ===== src/EslIter/Layout.antt =====
-- Signature lists as data, and their bytes, as src/include/efivar/efisec-types.h lays them out: the type, three sizes, a header
-- of any kind, and entries of one size, each the GUID of its owner and its data.
use efivar.Common.{
  ℕ, ◌+◌, ◌*◌, ◌^◌, ◌<◌, ◌≡◌, refl, ap, true, false, ◌&&◌, List, [], ◌∷◌, ◌++◌, length, All, arith,
  length-append,
}
use efivar.Common.Memory.{le_bytes, le_value, le_value-le_bytes, concat}
use efivar.EslIter.{is_zero}

pub record Signature : Type 0 where
  pub owner : List ℕ
  pub contents : List ℕ

pub record SigList : Type 0 where
  pub type : List ℕ
  pub header : List ℕ
  pub sig_size : ℕ
  pub entries : List Signature

abbrev pub Holds : ℕ → Signature → Type 0
Holds ss s = (length s.owner ≡ 16) × (16 + length s.contents ≡ ss)

abbrev pub list_size : SigList → ℕ
list_size l = 28 + length l.header + l.sig_size * length l.entries

-- At least one entry, and sizes that their fields can hold.
pub record IsSigList (l : SigList) : Type 0 where
  pub type_size : length l.type ≡ 16
  pub entry_sizes : All (Holds l.sig_size) l.entries
  pub some_entry : 0 < length l.entries
  pub fits : list_size l < 2 ^ 32

unfoldable pub sig_blocks : List Signature → List (List ℕ)
sig_blocks [] = []
sig_blocks (s ∷ ss) = s.owner ∷ s.contents ∷ sig_blocks ss

-- The list in pieces, and what follows.
unfoldable pub blocks : SigList → List (List ℕ) → List (List ℕ)
unfolding sig_blocks
blocks l back =
    l.type
    ∷ le_bytes 4 (list_size l)
    ∷ le_bytes 4 (length l.header)
    ∷ le_bytes 4 l.sig_size
    ∷ l.header
    ∷ (sig_blocks l.entries ++ back)

unfoldable pub all_blocks : List SigList → List (List ℕ)
unfolding blocks
all_blocks [] = []
all_blocks (l ∷ ls) = blocks l (all_blocks ls)

-- The bytes of the lists, one behind the other.
unfoldable pub encode : List SigList → List ℕ
unfolding concat all_blocks
encode ls = concat (all_blocks ls)

pub length-sig_blocks :
    (n : ℕ) (ss : List Signature)
    → All (Holds n) ss
    → length (concat (sig_blocks ss)) ≡ n * length ss
unfolding sig_blocks concat
length-sig_blocks n [] h = omega arith
length-sig_blocks n (s ∷ ss) h = omega (
  arith,
  length-append s.owner (s.contents ++ concat (sig_blocks ss)),
  length-append s.contents (concat (sig_blocks ss)),
  length-sig_blocks n ss h.1,
)

pub sig_blocks-append :
    (xs ys : List Signature) → sig_blocks (xs ++ ys) ≡ sig_blocks xs ++ sig_blocks ys
unfolding sig_blocks
sig_blocks-append [] ys = refl
sig_blocks-append (x ∷ xs) ys =
    ap (λ (b : List (List ℕ)). x.owner ∷ x.contents ∷ b) (sig_blocks-append xs ys)

pub All-split {ℓ κ} :
    {A : Type ℓ} (P : A → Type κ) (xs : List A) (y : A) (ys : List A)
    → All P (xs ++ (y ∷ ys))
    → All P xs × P y
All-split P [] y ys h = (tt, h.0)
All-split P (x ∷ xs) y ys h = let (front, mid) = All-split P xs y ys h.1 in ((h.0, front), mid)

is_zero-value : (bs : List ℕ) → is_zero bs ≡ true → le_value bs ≡ 0
unfolding is_zero le_value
is_zero-value [] h = refl
is_zero-value (b ∷ bs) h = ground (arith, is_zero-value bs)

pub is_zero-append : (xs ys : List ℕ) → is_zero (xs ++ ys) ≡ is_zero xs && is_zero ys
unfolding is_zero
is_zero-append [] ys = refl
is_zero-append (x ∷ xs) ys = ground (arith, is_zero-append xs ys)

-- A number that is not 0 has a byte that is not.
pub le_bytes-not_zero : (w n : ℕ) → n < 256 ^ w → 0 < n → is_zero (le_bytes w n) ≡ false
le_bytes-not_zero w n h pos = ground (arith, is_zero-value (le_bytes w n), le_value-le_bytes w n h)
