-- ===== src/EslIter/Empty.antt =====
-- src/esl-iter.c: a signature list without entries.
use efivar.Common.{
  ℕ, ◌+◌, ◌-◌, ◌^◌, ◌≤◌, ◌<◌, ◌≡◌, true, Bool, none, some, List, [], ◌∷◌, ◌++◌, length,
}
use efivar.Common.Memory.{le_bytes}
use efivar.EslIter.{ListIter, EslIter, Entry}
use efivar.EslIter.Layout.{SigList, encode}

-- A list without entries at the start of a buffer, 16 bytes behind it, and what follows.
abbrev pub without_entries : List ℕ → List ℕ → ℕ → SigList
without_entries type header ss = record {
  type = type;
  header = header;
  sig_size = ss;
  entries = [];
}

abbrev pub buffer : List ℕ → List ℕ → ℕ → List ℕ → List ℕ → List ℕ
buffer type header ss owner more = encode (without_entries type header ss ∷ []) ++ (owner ++ more)

module _ (c : Bool) (type header owner more : List ℕ) (ss : ℕ) (type_size : length type ≡ 16)
    (owner_size : length owner ≡ 16) (min : 16 ≤ ss) (max : ss < 2 ^ 32)
    (small : length (buffer type header ss owner more) < 2 ^ 32) where
  abbrev buf : List ℕ
  buf = buffer type header ss owner more

  abbrev size : ℕ
  size = 28 + length header

  abbrev in_blocks : List (List ℕ)
  in_blocks =
      type
      ∷ le_bytes 4 size
      ∷ le_bytes 4 (length header)
      ∷ le_bytes 4 ss
      ∷ header
      ∷ owner
      ∷ more
      ∷ []

  abbrev head : List ℕ
  head = type ++ (le_bytes 4 size ++ (le_bytes 4 (length header) ++ le_bytes 4 ss))

  started : EslIter
  started = record {
    iter = record { buf = buf; len = length buf; offset = 0; esl = none };
    line = 0;
    esd = 0;
    nmemb = 0;
    i = 2 ^ 32 - 1;
  }

  at_start : ListIter
  at_start = record { buf = buf; len = length buf; offset = 0; esl = some 0 }

  moved : EslIter
  moved = record { iter = at_start; line = 1; esd = size; nmemb = 0; i = 0 }

  entry : ℕ → Entry
  entry place = record {
    new_list = true;
    type = type;
    owner = owner;
    at = place + 16;
    len = ss - 16;
  }
