-- ===== src/LoadOption/Access.antt =====
-- src/loadopt.c: the accessors of a load option. A pointer into it is an offset, and its description is read as the units from
-- byte 6 on.
use efivar.Common.{
  ℕ, zero, suc, ◌+◌, ◌-◌, ◌*◌, ◌^◌, Bool, true, false, not, ◌&&◌, Option, none, some, List, [], ◌∷◌,
  ◌++◌, length, drop, ltb, leb, ◌==◌, if◌then◌else◌, bit_and, bit_or,
}
use efivar.Common.Outcome.{
  Outcome, ok, err, fault, einval, enospc, unset, ◌>>=◌, ◌>>◌, ◌>>>=◌, guard,
}
use efivar.Common.Memory.{le_bytes, load_le, store}
use efivar.Ucs2.{ucs2size, ucs2_to_utf8, utf8len, utf8_to_ucs2}
use efivar.Variable.Export.{unit_bytes}
use efivar.Variable.Import.{units_of}
use efivar.DevicePath.{efidp_size}
use efivar.DevicePath.Valid.{efidp_is_valid}

-- `opt->attributes |= attr` and `opt->attributes &= ~attr`, where `attr` has 16 bits.
unfoldable pub efi_loadopt_attr_set : List ℕ → ℕ → Outcome (List ℕ)
efi_loadopt_attr_set opt attr =
    load_le 0 4 opt >>= λ attributes. store 0 (le_bytes 4 (bit_or attributes attr)) opt

unfoldable pub efi_loadopt_attr_clear : List ℕ → ℕ → Outcome (List ℕ)
efi_loadopt_attr_clear opt attr = load_le 0 4 opt >>= λ attributes.
    store 0 (le_bytes 4 (bit_and attributes (2 ^ 32 - 1 - attr))) opt

-- `ucs2size(opt->description, limit)`
unfoldable pub description_size : List ℕ → ℕ → Outcome ℕ
description_size opt limit = ucs2size (units_of (drop 6 opt)) (some limit)

-- The loop that adds up the sizes of the paths in the list, at the place `at` of the option and until `end`. An error
-- counts as the size -1, so the loop may go back; in front of the option it reads outside.
unfoldable pub path_sizes : ℕ → ℕ → List ℕ → ℕ → Option (Outcome ℕ)
path_sizes zero end opt at = none
path_sizes (suc turns) end opt at =
    let back : Option (Outcome ℕ) = elim at [
      | zero ↦ some fault
      | suc before ↦ path_sizes turns end opt before
    ] in
    elim (leb end at) [
      | true ↦ some (ok at)
      | false ↦ elim (efidp_size turns (drop at opt)) [
        | some (ok more) ↦ path_sizes turns end opt (at + more)
        | some (err e) ↦ back
        | some fault ↦ some fault
        | none ↦ none
      ]
    ]

-- `efi_loadopt_optional_data_size`; the loops over the path take `turns` turns, and a size of 2 ^ 63 or more is negative.
unfoldable pub efi_loadopt_optional_data_size : ℕ → List ℕ → ℕ → Option (Outcome ℕ)
unfolding description_size path_sizes
efi_loadopt_optional_data_size turns opt size =
    some (guard (leb 6 size && ltb size (2 ^ 63)) unset) >>>= λ _.
    some (load_le 4 2 opt) >>>= λ path_length.
    some (guard (leb path_length (size - 6)) unset) >>>= λ _.
    let left = size - 6 - path_length in
    some (description_size opt left) >>>= λ sz. some (guard (leb sz left) unset) >>>= λ _.
    efidp_is_valid turns (drop (6 + sz) opt) (some path_length) >>>= λ valid.
    some (guard valid unset) >>>= λ _.
    path_sizes turns (6 + sz + path_length) opt (6 + sz) >>>= λ end.
    some (guard (end == 6 + sz + path_length) unset) >>>= λ _. some (ok (left - sz))

unfoldable pub efi_loadopt_is_valid : ℕ → List ℕ → ℕ → Option (Outcome Bool)
unfolding efi_loadopt_optional_data_size
efi_loadopt_is_valid turns opt size = elim (efi_loadopt_optional_data_size turns opt size) [
  | none ↦ none
  | some (ok _) ↦ some (ok true)
  | some (err _) ↦ some (ok false)
  | some fault ↦ some fault
]

-- `efi_loadopt_path`: the offset of the path, or NULL as `none`.
unfoldable pub efi_loadopt_path : ℕ → List ℕ → ℕ → Option (Outcome (Option ℕ))
unfolding description_size
efi_loadopt_path turns opt limit =
    if leb limit 6
    then some (ok none)
    else (some (description_size opt (limit - 6)) >>>= λ sz.
        if leb (limit - 6) sz
        then some (ok none)
        else (some (load_le 4 2 opt) >>>= λ path_length.
            if ltb (limit - 6 - sz) path_length
            then some (ok none)
            else (efidp_is_valid turns (drop (6 + sz) opt) (some path_length) >>>= λ valid.
                if not valid then some (ok none) else some (ok (some (6 + sz))))))

-- `efi_loadopt_optional_data`: the offset of the data and their length.
unfoldable pub efi_loadopt_optional_data : List ℕ → ℕ → Outcome (ℕ × ℕ)
unfolding description_size
efi_loadopt_optional_data opt opt_size = do
  guard (leb 6 opt_size) einval
  ul ← description_size opt (opt_size - 6)
  path_length ← load_le 4 2 opt
  guard (leb path_length opt_size) einval
  guard (leb ul opt_size) einval
  guard (leb path_length (opt_size - ul)) einval
  let l = 6 + ul + path_length
  guard (leb l opt_size) einval
  ok (l, opt_size - l)

-- `efi_loadopt_args_as_utf8` of a buffer, or NULL as `none`, a size that is not negative and a string: what is returned,
-- and the buffer.
unfoldable pub efi_loadopt_args_as_utf8 :
    Option (List ℕ) → ℕ → List ℕ → Outcome (ℕ × Option (List ℕ))
efi_loadopt_args_as_utf8 none size utf8 = if size == 0 then ok (length utf8, none) else err einval
efi_loadopt_args_as_utf8 (some buf) size utf8 =
    let req = length utf8 in
    if size == 0
    then ok (req, some buf)
    else if ltb size req
    then err enospc
    else (store 0 utf8 buf >>= λ filled. ok (req, some filled))

-- The same of `efi_loadopt_args_as_ucs2`, which returns what `utf8_to_ucs2` returns.
unfoldable pub efi_loadopt_args_as_ucs2 :
    Option (List ℕ) → ℕ → List ℕ → Outcome (ℕ × Option (List ℕ))
efi_loadopt_args_as_ucs2 none size utf8 =
    if size == 0 then (utf8len (utf8 ++ (0 ∷ [])) none >>= λ n. ok (n * 2, none)) else err einval
efi_loadopt_args_as_ucs2 (some buf) size utf8 = utf8len (utf8 ++ (0 ∷ [])) none >>= λ n.
    if size == 0
    then ok (n * 2, some buf)
    else if ltb size (n * 2)
    then err enospc
    else (utf8_to_ucs2 size false (utf8 ++ (0 ∷ [])) >>= λ w.
        store 0 (unit_bytes w.units) buf >>= λ filled. ok (w.rc, some filled))

-- `efi_loadopt_desc`: the description, the limit in units.
unfoldable pub efi_loadopt_desc : List ℕ → Option ℕ → Outcome (List ℕ)
efi_loadopt_desc opt limit = ucs2_to_utf8 (units_of (drop 6 opt)) limit
