-- ===== src/VariableNames/Listed.antt =====
-- src/generics.h and src/efivar.c: what `list_all_variables` prints of a directory of variables.
use efivar.Common.{
  ℕ, zero, suc, ◌+◌, ◌-◌, ◌<◌, ◌≡◌, refl, sym, ap, ◌∙◌, subst, false, Option, none, some, List, [],
  ◌∷◌, ◌++◌, take, drop, length, All, arith, length-append, append_assoc, take-length_append,
  drop-length_append, ltb, if-false, if-true,
}
use efivar.Common.Outcome.{Outcome, ok}
use efivar.Guid.{Guid, text_to_guid, efi_guid_to_str}
use efivar.Guid.Text.{IsGuid, text_to_guid-efi_guid_to_str, length-efi_guid_to_str}
use efivar.VariableNames.{
  NextName, guidlen, name_found, read_names, is_null, generic_get_next_variable_name, listed,
  list_loop, list_all_variables,
}

-- A name in the directory: that of a variable, or one too short to be that.
pub data DirEntry : Type 0 where
  variable : List ℕ → Guid → DirEntry
  short : List ℕ → DirEntry

abbrev pub d_name : DirEntry → List ℕ
d_name (variable name guid) = name ++ (0x2d ∷ efi_guid_to_str guid)
d_name (short name) = name

abbrev pub IsDirEntry : DirEntry → Type 0
IsDirEntry (variable name guid) = (0 < length name) × IsGuid guid
IsDirEntry (short name) = length name < 38

abbrev pub d_names : List DirEntry → List (List ℕ)
d_names [] = []
d_names (e ∷ es) = d_name e ∷ d_names es

-- The variables, in order.
abbrev pub variables : List DirEntry → List NextName
variables [] = []
variables (variable name guid ∷ es) = record { guid = guid; name = name } ∷ variables es
variables (short name ∷ es) = variables es

module _ (name : List ℕ) (guid : Guid) (some_name : 0 < length name) (fits : IsGuid guid) where
  name_size : length (d_name (variable name guid)) ≡ length name + 37
  name_size =
      omega (arith, length-append name (0x2d ∷ efi_guid_to_str guid), length-efi_guid_to_str guid)

  name_there :
      take (length (d_name (variable name guid)) - guidlen - 1) (d_name (variable name guid)) ≡ name
  name_there =
      subst (λ n. take n (d_name (variable name guid)) ≡ name) (omega (arith, name_size))
        (take-length_append name (0x2d ∷ efi_guid_to_str guid))

  guid_there :
      drop (length (d_name (variable name guid)) - guidlen) (d_name (variable name guid))
      ≡ efi_guid_to_str guid
  guid_there =
      let dash : length (name ++ (0x2d ∷ [])) ≡ length name + 1 = length-append name (0x2d ∷ []) in
      subst (λ n. drop n (d_name (variable name guid)) ≡ efi_guid_to_str guid)
        (omega (arith, name_size, dash))
        (ap (drop (length (name ++ (0x2d ∷ []))))
            (sym (append_assoc name (0x2d ∷ []) (efi_guid_to_str guid)))
          ∙ drop-length_append (name ++ (0x2d ∷ [])) (efi_guid_to_str guid))

  read_names-variable :
      (es : List DirEntry)
      → read_names (d_names (variable name guid ∷ es))
        ≡ (ok (some (record { guid = guid; name = name })), some (d_names es))
  unfolding read_names name_found
  read_names-variable es =
      let long : ltb (length (d_name (variable name guid))) (guidlen + 2) ≡ false =
        ground (arith, name_size, some_name) in
      if-false _ _ _ long
      ∙ ap (λ t. name_found (d_name (variable name guid)) (d_names es) (text_to_guid t)) guid_there
      ∙ ap (name_found (d_name (variable name guid)) (d_names es))
          (text_to_guid-efi_guid_to_str guid fits).0
      ∙ ap (λ (n : List ℕ). (ok (some (record { guid = guid; name = n })), some (d_names es)))
          name_there

read_names-short :
    (name : List ℕ) (dir : List (List ℕ))
    → length name < 38
    → read_names (name ∷ dir) ≡ read_names dir
unfolding read_names
read_names-short name dir h = if-true (ltb (length name) (guidlen + 2)) _ _ (ground arith)

read_names-nil : read_names [] ≡ (ok none, none)
unfolding read_names
read_names-nil = refl

-- A call that goes on in the directory, or that opens it, with what the call before it returned.
module _ (opendir : Outcome (List (List ℕ))) where
  next_call :
      (guid : Guid) (name : List ℕ) (dir : List (List ℕ))
      → generic_get_next_variable_name opendir (some guid) (some name) (some dir) ≡ read_names dir
  unfolding generic_get_next_variable_name is_null
  next_call guid name dir = refl

  list_loop-read :
      (turns : ℕ) (guid : Option Guid) (name : Option (List ℕ)) (dir : Option (List (List ℕ)))
      (es : List DirEntry)
      → All IsDirEntry es
      → length es < turns
      → generic_get_next_variable_name opendir guid name dir ≡ read_names (d_names es)
      → list_loop opendir turns guid name dir ≡ some (ok (variables es, none))
  unfolding list_loop listed
  list_loop-read zero guid name dir es h many e = absurd (omega arith)
  list_loop-read (suc turns) guid name dir [] h many e =
      ap (listed (list_loop opendir turns)) (e ∙ read_names-nil)
  list_loop-read (suc turns) guid name dir (variable n g ∷ es) (v, h) many e =
      let others =
        list_loop-read turns (some g) (some n) (some (d_names es)) es h (omega (arith, many))
          (next_call g n (d_names es)) in
      ap (listed (list_loop opendir turns)) (e ∙ read_names-variable n g v.0 v.1 es)
      ∙ rw others refl
  list_loop-read (suc turns) guid name dir (short n ∷ es) (v, h) many e =
      list_loop-read (suc turns) guid name dir es h (omega (arith, many))
        (e ∙ read_names-short n (d_names es) v)

-- `list_all_variables` of a directory that opens, with a turn more than it has names, each of them that of a variable, a name that
-- is not empty, a dash and the text of a GUID, or one of fewer than 38 characters: it prints all variables in order, with their
-- GUIDs, and the directory is closed again.
pub list_all_variables-variables :
    (turns : ℕ) (es : List DirEntry)
    → All IsDirEntry es
    → length es < turns
    → list_all_variables (ok (d_names es)) turns ≡ some (ok (variables es, none))
unfolding list_all_variables generic_get_next_variable_name is_null
list_all_variables-variables turns es h many =
    list_loop-read (ok (d_names es)) turns none none none es h many refl
