-- ===== src/EslIter/Tests.antt =====
-- Concrete signature lists, and the theorems at them.
use efivar.Common.{
  ℕ, ◌≡◌, refl, arith, List, [], ◌∷◌, ◌++◌, length, true, false, none, some, replicate, All,
}
use efivar.Common.Outcome.{ok}
use efivar.Common.Memory.{concat, le_bytes, le_value, load, load_le, store}
use efivar.EslIter.{ListIter, EslIter, esl_iter_new, esl_list_iter_new, esl_list_iter_next}
use efivar.EslIter.Layout.{SigList, IsSigList, encode, all_blocks, blocks, sig_blocks}
use efivar.EslIter.Bounds.{Reach, start, step, IsInside, Reach-IsInside}
use efivar.EslIter.Found.{walk, found, found_in, plain}
use efivar.EslIter.Walk.{esl_iter_next-walk}

-- Two hashes of four bytes, then one entry of no data.
abbrev hashes : SigList
hashes = record {
  type = replicate 16 0x26;
  header = [];
  sig_size = 20;
  entries =
      record { owner = replicate 16 1; contents = 1 ∷ 2 ∷ 3 ∷ 4 ∷ [] }
      ∷ record { owner = replicate 16 2; contents = 5 ∷ 6 ∷ 7 ∷ 8 ∷ [] }
      ∷ [];
}

abbrev plain_list : SigList
plain_list = record {
  type = replicate 16 0x27;
  header = 9 ∷ [];
  sig_size = 16;
  entries = record { owner = replicate 16 3; contents = [] } ∷ [];
}

abbrev lists : List SigList
lists = hashes ∷ plain_list ∷ []

lists-IsSigList : All IsSigList lists
lists-IsSigList = (
  record {
    type_size = refl;
    entry_sizes = omega arith;
    some_entry = omega arith;
    fits = omega arith;
  },
  (
    record {
      type_size = refl;
      entry_sizes = omega arith;
      some_entry = omega arith;
      fits = omega arith;
    },
    tt,
  ),
)

esl_iter_next-walk_example :
    (it : EslIter) × (esl_iter_new (encode lists) (length (encode lists)) ≡ ok it)
    × (walk 4 false it ≡ some (ok (found lists)))
esl_iter_next-walk_example =
    esl_iter_next-walk false lists 4 lists-IsSigList (omega arith)
      (unfold encode all_blocks blocks sig_blocks concat le_bytes in omega arith)
      (unfold found found_in plain in omega arith)

-- A list that claims 80 bytes in a buffer of 50.
abbrev claims : List ℕ
claims = replicate 16 7 ++ (le_bytes 4 80 ++ (le_bytes 4 0 ++ (le_bytes 4 22 ++ replicate 22 5)))

abbrev corrected : List ℕ
corrected = replicate 16 7 ++ (le_bytes 4 50 ++ (le_bytes 4 0 ++ (le_bytes 4 22 ++ replicate 22 5)))

abbrev at_corrected : ListIter
at_corrected = record { buf = corrected; len = 50; offset = 0; esl = some 0 }

reached : Reach true claims 50 at_corrected
unfolding esl_list_iter_new esl_list_iter_next le_bytes le_value load_le load store
reached =
    step (record { buf = claims; len = 50; offset = 0; esl = none }) at_corrected (replicate 16 7)
      28 22 (start (record { buf = claims; len = 50; offset = 0; esl = none }) refl) refl

Reach-IsInside_example : IsInside claims 50 at_corrected
Reach-IsInside_example = Reach-IsInside true claims 50 (omega arith) at_corrected reached
