-- ===== src/Common/Memory.antt =====
-- A buffer of bytes: little-endian integers in it, reads and writes with their bounds, and a buffer seen
-- as blocks one behind the other.
use Prim.Native.Nat.{ℕ, zero, suc, ◌+◌, ◌*◌, ◌/◌, ◌%◌, ◌^◌, ◌<◌, ◌≤◌}
use mathlib.Core.Path.{ap, ◌≡◌, refl, sym}
use mathlib.Core.List.{append-nil, List, [], ◌∷◌, ◌++◌, append_assoc}
use native.Mathlib.Omega.{arith}
use native.Mathlib.Nat.{pow-suc}
use efivar.Common.Tests.{leb, if◌then◌else◌}
use efivar.Common.Lists.{
  length, take, drop, All, length-append, length-take, length-drop, drop-drop, take-length_append,
  drop-length_append,
}
use efivar.Common.Outcome.{Outcome, ok, fault, ◌>>=◌}
use efivar.Common.Words.{IsByte}

-- The `w` bytes of a number.
unfoldable pub le_bytes : ℕ → ℕ → List ℕ
le_bytes zero n = []
le_bytes (suc w) n = n % 256 ∷ le_bytes w (n / 256)

unfoldable pub le_value : List ℕ → ℕ
le_value [] = 0
le_value (b ∷ bs) = b + 256 * le_value bs

pub length-le_bytes : (w n : ℕ) → length (le_bytes w n) ≡ w
unfolding le_bytes
length-le_bytes zero n = refl
length-le_bytes (suc w) n = omega (arith, length-le_bytes w (n / 256))

pub le_value-le_bytes : (w n : ℕ) → n < 256 ^ w → le_value (le_bytes w n) ≡ n
unfolding le_bytes le_value
le_value-le_bytes zero n h = omega arith
le_value-le_bytes (suc w) n h =
    omega (arith, pow-suc 256 w, le_value-le_bytes w (n / 256) (omega (arith, pow-suc 256 w)))

pub le_bytes-All : (w n : ℕ) → All IsByte (le_bytes w n)
unfolding le_bytes
le_bytes-All zero n = tt
le_bytes-All (suc w) n = (omega arith, le_bytes-All w (n / 256))

-- `n` bytes from `at` on, and the write of `bs` there.
unfoldable pub load : ℕ → ℕ → List ℕ → Outcome (List ℕ)
load at n buf = if leb (at + n) (length buf) then ok (take n (drop at buf)) else fault

unfoldable pub load_le : ℕ → ℕ → List ℕ → Outcome ℕ
unfolding load
load_le at w buf = load at w buf >>= λ bs. ok (le_value bs)

unfoldable pub store : ℕ → List ℕ → List ℕ → Outcome (List ℕ)
store at bs buf =
    if leb (at + length bs) (length buf)
    then ok (take at buf ++ (bs ++ drop (at + length bs) buf))
    else fault

unfoldable pub concat : List (List ℕ) → List ℕ
concat [] = []
concat (b ∷ bs) = b ++ concat bs

pub concat-append : (xs ys : List (List ℕ)) → concat (xs ++ ys) ≡ concat xs ++ concat ys
unfolding concat
concat-append [] ys = refl
concat-append (x ∷ xs) ys = rw (concat-append xs ys) (sym (append_assoc x (concat xs) (concat ys)))

take-drop :
    (front mid back : List ℕ)
    → take (length mid) (drop (length front) (front ++ (mid ++ back))) ≡ mid
take-drop front mid back = rw (drop-length_append front (mid ++ back)) (take-length_append mid back)

drop-both :
    (front mid back : List ℕ) → drop (length front + length mid) (front ++ (mid ++ back)) ≡ back
drop-both front mid back = ground (
  arith,
  append_assoc front mid back,
  length-append front mid,
  drop-length_append (front ++ mid) back,
)

load-middle :
    (front mid back : List ℕ) → load (length front) (length mid) (front ++ (mid ++ back)) ≡ ok mid
unfolding load
load-middle front mid back =
    ground
      (arith, take-drop front mid back, length-append front (mid ++ back), length-append mid back)

pub store-middle :
    (front old new back : List ℕ)
    → length new ≡ length old
    → store (length front) new (front ++ (old ++ back)) ≡ ok (front ++ (new ++ back))
unfolding store
store-middle front old new back q = ground (
  arith,
  take-length_append front (old ++ back),
  drop-both front old back,
  length-append front (old ++ back),
  length-append old back,
)

pub load-block :
    (at n : ℕ) (front : List (List ℕ)) (mid : List ℕ) (back : List (List ℕ))
    → at ≡ length (concat front)
    → n ≡ length mid
    → load at n (concat (front ++ (mid ∷ back))) ≡ ok mid
unfolding concat
load-block at n front mid back p q =
    ground (arith, concat-append front (mid ∷ back), load-middle (concat front) mid (concat back))

pub load_le-block :
    (at w : ℕ) (front : List (List ℕ)) (v : ℕ) (back : List (List ℕ))
    → at ≡ length (concat front)
    → v < 256 ^ w
    → load_le at w (concat (front ++ (le_bytes w v ∷ back))) ≡ ok v
unfolding load_le
load_le-block at w front v back p h = ground (
  arith,
  load-block at w front (le_bytes w v) back p (sym (length-le_bytes w v)),
  le_value-le_bytes w v h,
)

pub store-block :
    (at : ℕ) (front : List (List ℕ)) (old new : List ℕ) (back : List (List ℕ))
    → at ≡ length (concat front)
    → length new ≡ length old
    → store at new (concat (front ++ (old ∷ back))) ≡ ok (concat (front ++ (new ∷ back)))
unfolding concat
store-block at front old new back p q = ground (
  arith,
  concat-append front (old ∷ back),
  concat-append front (new ∷ back),
  store-middle (concat front) old new (concat back) q,
)

pub load-front :
    (n : ℕ) (front back : List (List ℕ))
    → n ≡ length (concat front)
    → load 0 n (concat (front ++ back)) ≡ ok (concat front)
load-front n front back p =
    ground (arith, concat-append front back, load-middle [] (concat front) (concat back))

pub drop-front :
    (n : ℕ) (front back : List (List ℕ))
    → n ≡ length (concat front)
    → drop n (concat (front ++ back)) ≡ concat back
drop-front n front back p =
    ground (arith, concat-append front back, drop-length_append (concat front) (concat back))

-- A buffer cut into blocks of the sizes given; what is left is behind them.
unfoldable pub pieces : List ℕ → List ℕ → List (List ℕ)
pieces [] buf = []
pieces (n ∷ sizes) buf = take n buf ∷ pieces sizes (drop n buf)

abbrev pub sum : List ℕ → ℕ
sum [] = 0
sum (n ∷ ns) = n + sum ns

abbrev pub Sized : List ℕ → List (List ℕ) → Type 0
Sized [] bs = Unit
Sized (n ∷ ns) [] = Unit
Sized (n ∷ ns) (b ∷ bs) = (length b ≡ n) × Sized ns bs

pub take-drop-append : (n : ℕ) (buf : List ℕ) → take n buf ++ drop n buf ≡ buf
take-drop-append zero buf = refl
take-drop-append (suc n) [] = refl
take-drop-append (suc n) (b ∷ buf) = ap (◌∷◌ b) (take-drop-append n buf)

pub concat-pieces :
    (sizes buf : List ℕ) → concat (pieces sizes buf ++ (drop (sum sizes) buf ∷ [])) ≡ buf
unfolding concat pieces
concat-pieces [] buf = append-nil buf
concat-pieces (n ∷ sizes) buf =
    rw (sym (drop-drop (sum sizes) n buf))
      (rw (concat-pieces sizes (drop n buf)) (take-drop-append n buf))

pub pieces-Sized : (sizes buf : List ℕ) → sum sizes ≤ length buf → Sized sizes (pieces sizes buf)
unfolding pieces
pieces-Sized [] buf h = tt
pieces-Sized (n ∷ sizes) buf h = (
  omega (arith, length-take n buf),
  pieces-Sized sizes (drop n buf) (omega (arith, length-drop n buf)),
)

-- The length of a buffer of blocks as a sum.
abbrev pub total : List (List ℕ) → ℕ
total [] = 0
total (b ∷ bs) = length b + total bs

pub length-concat : (bs : List (List ℕ)) → length (concat bs) ≡ total bs
unfolding concat
length-concat [] = refl
length-concat (b ∷ bs) = omega (arith, length-append b (concat bs), length-concat bs)

pub load-all : (xs : List ℕ) → load 0 (length xs) xs ≡ ok xs
load-all xs = ground (arith, load-middle [] xs [], append-nil xs)

pub load-append : (xs ys : List ℕ) → load 0 (length xs) (xs ++ ys) ≡ ok xs
load-append xs ys = load-middle [] xs ys

-- A number that was stored is read back, and the buffer keeps its length.
pub load_le-store :
    (at w v : ℕ) (buf out : List ℕ)
    → v < 256 ^ w
    → store at (le_bytes w v) buf ≡ ok out
    → (load_le at w out ≡ ok v) × (length out ≡ length buf)
unfolding store load_le
load_le-store at w v buf out h e = ground (
  arith,
  length-take at buf,
  length-drop (at + length (le_bytes w v)) buf,
  length-le_bytes w v,
  length-append (take at buf) (le_bytes w v ++ drop (at + length (le_bytes w v)) buf),
  length-append (le_bytes w v) (drop (at + length (le_bytes w v)) buf),
  load-middle (take at buf) (le_bytes w v) (drop (at + length (le_bytes w v)) buf),
  le_value-le_bytes w v h,
)
