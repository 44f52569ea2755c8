-- ===== src/EslIter/Found.antt =====
-- What a caller of `esl_iter_next` of src/esl-iter.c finds.
use efivar.Common.{
  ℕ, zero, suc, ◌+◌, ◌<◌, ◌≡◌, refl, true, false, Bool, Option, none, some, List, [], ◌∷◌, ◌++◌,
  length, map, arith, length-append,
}
use efivar.Common.Outcome.{Outcome, ok, err, fault, ◌>>>=◌}
use efivar.Common.Memory.{load}
use efivar.EslIter.{EslIter, iter_end, iter_next, esl_iter_next}
use efivar.EslIter.Layout.{Signature, SigList}

-- What a caller sees of an entry.
pub record Found : Type 0 where
  pub new_list : Bool
  pub type : List ℕ
  pub signature : Signature

-- The loop of a caller of `esl_iter_next`, which reads the data that each entry points to; `none` if the iterator is not at
-- its end after the turns given.
unfoldable pub walk : ℕ → Bool → EslIter → Option (Outcome (List Found))
walk zero c it = none
walk (suc turns) c it = elim (esl_iter_next c it) [
  | ok (iter_end last) ↦ some (ok [])
  | ok (iter_next next e) ↦
      (some (load e.at e.len next.iter.buf) >>>= λ contents. walk turns c next >>>= λ rest. some (
        ok (
          record {
            new_list = e.new_list;
            type = e.type;
            signature = record { owner = e.owner; contents = contents };
          }
          ∷ rest)))
  | err e ↦ some (err e)
  | fault ↦ some fault
]

-- The entries of lists, as a caller sees them.
unfoldable pub plain : SigList → Signature → Found
plain l s = record { new_list = false; type = l.type; signature = s }

unfoldable pub found_in : SigList → List Signature → List Found
unfolding plain
found_in l [] = []
found_in l (s ∷ ss) = record { new_list = true; type = l.type; signature = s } ∷ map (plain l) ss

unfoldable pub found : List SigList → List Found
unfolding found_in
found [] = []
found (l ∷ ls) = found_in l l.entries ++ found ls

length-map {ℓ κ} :
    {A : Type ℓ} {B : Type κ} (f : A → B) (xs : List A) → length (map f xs) ≡ length xs
length-map f [] = refl
length-map f (x ∷ xs) = omega (arith, length-map f xs)

length-found_in : (l : SigList) (ss : List Signature) → length (found_in l ss) ≡ length ss
unfolding found_in
length-found_in l [] = refl
length-found_in l (s ∷ ss) = omega (arith, length-map (plain l) ss)

pub length-found :
    (l : SigList) (ls : List SigList)
    → length (found (l ∷ ls)) ≡ length l.entries + length (found ls)
unfolding found
length-found l ls =
    omega (arith, length-append (found_in l l.entries) (found ls), length-found_in l l.entries)

pub first_of :
    (ss : List Signature)
    → 0 < length ss
    → (s : Signature) × (post : List Signature) × (ss ≡ s ∷ post)
first_of [] pos = absurd (omega arith)
first_of (s ∷ ss) pos = (s, ss, refl)
