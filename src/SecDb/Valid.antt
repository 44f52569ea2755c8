-- ===== src/SecDb/Valid.antt =====
-- src/secdb.c: when a list of a database is well formed, and the signatures that a database holds.
use Prim.Native.Nat.{Ordering}
use mathlib.Core.List.{Permᴰ}
use mathlib.Core.List.Permᴰ
use efivar.Common.{
  ℕ, suc, ◌+◌, ◌*◌, ◌^◌, ◌<◌, ◌≡◌, refl, sym, ap, ◌∙◌, subst, List, [], ◌∷◌, ◌++◌, map, length, All,
  append_assoc, arith,
}
use efivar.EslIter.Layout.{Signature, Holds}
use efivar.SecDb.{Sublist, type_max}

-- The list has entries, its counts fit them, each has the size of its list, and the size of the list with `spare` bytes more
-- fits 32 bits.
pub record IsSublist (spare : ℕ) (l : Sublist) : Type 0 where
  pub known : l.algorithm < type_max
  pub no_header : l.hdrsz ≡ 0
  pub counted : l.nsigs ≡ length l.entries
  pub sized : l.listsz ≡ 28 + l.sigsz * length l.entries
  pub some_entry : 0 < length l.entries
  pub filled : All (Holds l.sigsz) l.entries
  pub fits : l.listsz + spare < 2 ^ 32

-- The signatures of a list, each with the type.
abbrev pub typed : Sublist → List (ℕ × Signature)
typed l = map (λ s. (l.algorithm, s)) l.entries

unfoldable pub signatures : List Sublist → List (ℕ × Signature)
signatures [] = []
signatures (l ∷ ls) = typed l ++ signatures ls

pub signatures-append :
    (xs ys : List Sublist) → signatures (xs ++ ys) ≡ signatures xs ++ signatures ys
unfolding signatures
signatures-append [] ys = refl
signatures-append (x ∷ xs) ys =
    ap (λ (t : List (ℕ × Signature)). typed x ++ t) (signatures-append xs ys)
    ∙ sym (append_assoc (typed x) (signatures xs) (signatures ys))

-- A sort leaves what it sorts.
abbrev pub Sorts : ((A : Type 0) → (A → A → Ordering) → List A → List A) → Type 1
Sorts qsort = (A : Type 0) (cmp : A → A → Ordering) (xs : List A) → Permᴰ (qsort A cmp xs) xs

pub All-permᴰ : {A : Type 0} (P : A → Type 0) {xs ys : List A} → Permᴰ xs ys → All P ys → All P xs
All-permᴰ P Permᴰ.nil h = tt
All-permᴰ P (Permᴰ.cons e p) h = (subst P (sym e) h.0, All-permᴰ P p h.1)
All-permᴰ P (Permᴰ.swap e f) h = (subst P (sym e) h.1.0, (subst P (sym f) h.0, h.1.1))
All-permᴰ P (Permᴰ.trans p q) h = All-permᴰ P p (All-permᴰ P q h)

pub length-permᴰ : {A : Type 0} {xs ys : List A} → Permᴰ xs ys → length xs ≡ length ys
length-permᴰ Permᴰ.nil = refl
length-permᴰ (Permᴰ.cons e p) = ap suc (length-permᴰ p)
length-permᴰ (Permᴰ.swap e f) = refl
length-permᴰ (Permᴰ.trans p q) = length-permᴰ p ∙ length-permᴰ q

pub signatures-permᴰ : {xs ys : List Sublist} → Permᴰ xs ys → Permᴰ (signatures xs) (signatures ys)
unfolding signatures
signatures-permᴰ Permᴰ.nil = Permᴰ.nil
signatures-permᴰ (Permᴰ.cons {b = b} {l₁ = xs} {l₂ = ys} e p) =
    subst (λ a. Permᴰ (typed a ++ signatures xs) (typed b ++ signatures ys)) (sym e)
      (Permᴰ.append_left (typed b) (signatures-permᴰ p))
signatures-permᴰ (Permᴰ.trans p q) = Permᴰ.trans (signatures-permᴰ p) (signatures-permᴰ q)
signatures-permᴰ (Permᴰ.swap {a = a} {b = b} {a' = a'} {b' = b'} {l = l} e f) =
    subst
      (λ x. Permᴰ (typed x ++ (typed b ++ signatures l)) (typed a' ++ (typed b' ++ signatures l)))
      (sym e)
      (subst
        (λ x.
          Permᴰ (typed b' ++ (typed x ++ signatures l)) (typed a' ++ (typed b' ++ signatures l)))
        (sym f)
        (subst (λ (t : List (ℕ × Signature)). Permᴰ t (typed a' ++ (typed b' ++ signatures l)))
          (append_assoc (typed b') (typed a') (signatures l))
          (subst (Permᴰ ((typed b' ++ typed a') ++ signatures l))
            (append_assoc (typed a') (typed b') (signatures l))
            (Permᴰ.append_right (signatures l) (Permᴰ.append_comm (typed b') (typed a'))))))

pub All-place :
    {A : Type 0} (P : A → Type 0) (xs : List A) (y : A) (ys : List A)
    → All P (xs ++ (y ∷ ys))
    → All P xs × P y × All P ys
All-place P [] y ys h = (tt, h.0, h.1)
All-place P (x ∷ xs) y ys h =
    let (front, mid, back) = All-place P xs y ys h.1 in ((h.0, front), mid, back)

pub All-IsSublist :
    (more spare : ℕ) (ls : List Sublist)
    → All (IsSublist (more + spare)) ls
    → All (IsSublist spare) ls
All-IsSublist more spare [] h = tt
All-IsSublist more spare (l ∷ ls) (v, h) = (
  record {
    known = v.known;
    no_header = v.no_header;
    counted = v.counted;
    sized = v.sized;
    some_entry = v.some_entry;
    filled = v.filled;
    fits = omega (arith, v.fits);
  },
  All-IsSublist more spare ls h,
)
