-- ===== src/VariableNames/Tests.antt =====
-- A concrete directory, and the theorem at it.
use efivar.Common.{◌≡◌, refl, arith, none, some, List, [], ◌∷◌, All}
use efivar.Common.Outcome.{ok, err, einval}
use efivar.Guid.{Guid}
use efivar.VariableNames.{generic_get_next_variable_name, is_null, list_all_variables}
use efivar.VariableNames.Listed.{
  DirEntry, variable, short, d_names, variables, IsDirEntry, list_all_variables-variables,
}

abbrev global : Guid
global = record {
  a = 0x8be4df61;
  b = 0x93ca;
  c = 0x11d2;
  d = 0xaa0d;
  e0 = 0;
  e1 = 0xe0;
  e2 = 0x98;
  e3 = 3;
  e4 = 0x2b;
  e5 = 0x8c;
}

-- `.` and the variable `Boot`.
abbrev entries : List DirEntry
entries = short (0x2e ∷ []) ∷ variable (0x42 ∷ 0x6f ∷ 0x6f ∷ 0x74 ∷ []) global ∷ []

entries-IsDirEntry : All IsDirEntry entries
entries-IsDirEntry = (
  omega arith,
  (
    (
      omega arith,
      record {
        a_fits = omega arith;
        b_fits = omega arith;
        c_fits = omega arith;
        d_fits = omega arith;
        e0_fits = omega arith;
        e1_fits = omega arith;
        e2_fits = omega arith;
        e3_fits = omega arith;
        e4_fits = omega arith;
        e5_fits = omega arith;
      },
    ),
    tt,
  ),
)

list_all_variables-variables_example :
    list_all_variables (ok (d_names entries)) 3 ≡ some (ok (variables entries, none))
list_all_variables-variables_example =
    list_all_variables-variables 3 entries entries-IsDirEntry (omega arith)

-- A GUID without a name is refused, and the directory stays as it was.
only_guid :
    generic_get_next_variable_name (ok []) (some global) none (some ([] ∷ []))
    ≡ (err einval, some ([] ∷ []))
unfolding generic_get_next_variable_name is_null
only_guid = refl
