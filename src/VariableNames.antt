-- ===== src/VariableNames.antt =====
-- src/generics.h and src/efivar.c: the names of the variables of a directory, one at a call, which src/lib.c passes on. A directory is the list of the names
-- that readdir gives, which `opendir` reads anew. `dirfd` and `fcntl` are taken to succeed; they change no name.
pub mod Listed
mod Tests
use efivar.Common.{
  ℕ, zero, suc, ◌+◌, ◌-◌, Bool, true, false, not, Option, none, some, List, [], ◌∷◌, take, drop,
  length, ltb, if◌then◌else◌, ◌||◌, ◌&&◌,
}
use efivar.Common.Outcome.{Outcome, ok, err, fault, einval, ◌>>>=◌}
use efivar.Guid.{Guid, text_to_guid}

-- `strlen(guidtext)`
abbrev pub guidlen : ℕ
guidlen = 36

-- What a call returns 1 with.
pub record NextName : Type 0 where
  pub guid : Guid
  pub name : List ℕ

-- The results of a call: an `ok none` is 0, the end. Then `dir`, with the names that are still to be read.
abbrev pub Answer : Type 0
Answer = Outcome (Option NextName) × Option (List (List ℕ))

-- The name behind the test of its length, with the names behind it.
unfoldable pub name_found : List ℕ → List (List ℕ) → Option Guid → Answer
name_found d_name dir none = (err einval, none)
name_found d_name dir (some guid) =
    (ok (some (record { guid = guid; name = take (length d_name - guidlen - 1) d_name })), some dir)

-- The loop over readdir.
unfoldable pub read_names : List (List ℕ) → Answer
unfolding name_found
read_names [] = (ok none, none)
read_names (d_name ∷ dir) =
    let rest = read_names dir in
    if ltb (length d_name) (guidlen + 2)
    then rest
    else name_found d_name dir (text_to_guid (drop (length d_name - guidlen) d_name))

unfoldable pub is_null : {A : Type 0} → Option A → Bool
is_null none = true
is_null (some a) = false

-- What `list_all_variables` prints, and `dir` at the end.
abbrev pub Printed : Type 0
Printed = Option (Outcome (List NextName × Option (List (List ℕ))))

-- What is done with what a call returned, by the turns behind it.
unfoldable pub listed :
    (Option Guid → Option (List ℕ) → Option (List (List ℕ)) → Printed) → Answer → Printed
listed more (ok none, dir) = some (ok ([], dir))
listed more (ok (some found), dir) =
    more (some found.guid) (some found.name) dir >>>= λ (others, last).
    some (ok (found ∷ others, last))
listed more (err e, dir) = some (err e)
listed more (fault, dir) = some fault

module _ (opendir : Outcome (List (List ℕ))) where
  unfoldable pub generic_get_next_variable_name :
      Option Guid → Option (List ℕ) → Option (List (List ℕ)) → Answer
  unfolding read_names is_null
  generic_get_next_variable_name guid name dir =
      if (is_null guid && not (is_null name)) || (not (is_null guid) && is_null name)
      then (err einval, dir)
      else elim dir [
        | some names ↦ read_names names
        | none ↦ elim opendir [
          | ok names ↦ read_names names
          | err e ↦ (err e, none)
          | fault ↦ (fault, none)
        ]
      ]

  -- The loop of `list_all_variables`.
  unfoldable pub list_loop : ℕ → Option Guid → Option (List ℕ) → Option (List (List ℕ)) → Printed
  unfolding listed
  list_loop zero guid name dir = none
  list_loop (suc turns) guid name dir =
      listed (list_loop turns) (generic_get_next_variable_name guid name dir)

  unfoldable pub list_all_variables : ℕ → Printed
  unfolding list_loop
  list_all_variables turns = list_loop turns none none none
