-- ===== src/LoadOption.antt =====
-- src/loadopt.c: `efi_loadopt_create` and the accessors of the fixed fields.
pub mod Access
pub mod Create
pub mod ReadBack
mod Tests
use efivar.Common.{
  ℕ, ◌+◌, ◌-◌, ◌*◌, Bool, true, false, not, ◌&&◌, ◌||◌, Option, none, some, List, [], ◌∷◌, ◌++◌,
  length, ltb, leb, ◌==◌, if◌then◌else◌,
}
use efivar.Common.Outcome.{Outcome, ok, err, fault, einval, enospc, ◌>>=◌, ◌>>>=◌}
use efivar.Common.Memory.{le_bytes, load, load_le, store}
use efivar.Ucs2.{utf8len, utf8_to_ucs2}
use efivar.Variable.Export.{unit_bytes}
use efivar.DevicePath.{efidp_size}
use efivar.DevicePath.Valid.{efidp_is_valid}

-- What is returned, and the buffer afterwards.
pub record Created : Type 0 where
  pub rc : ℕ
  pub buffer : List ℕ

-- The write of the description, whose result the code does not look at: after an error the buffer is as it was.
pub write_description : ℕ → List ℕ → List ℕ → Outcome (List ℕ)
write_description desc_len description buf =
    elim (utf8_to_ucs2 desc_len true (description ++ (0 ∷ []))) [
      | ok w ↦ store 6 (unit_bytes w.units) buf
      | err e ↦ ok buf
      | fault ↦ fault
    ]

-- The writes of `efi_loadopt_create`, in their order.
pub fill : ℕ → List ℕ → ℕ → ℕ → List ℕ → List ℕ → List ℕ → Outcome (List ℕ)
unfolding write_description
fill attributes dp dp_size desc_len description optional_data buf0 = do
  buf1 ← store 0 (le_bytes 4 attributes) buf0
  buf2 ← store 4 (le_bytes 2 dp_size) buf1
  buf3 ← write_description desc_len description buf2
  path ← load 0 dp_size dp
  buf4 ← store (6 + desc_len) path buf3
  store (6 + desc_len + dp_size) optional_data buf4

-- The tests of the device path: valid, and as long as the caller says. The loops over it take `turns` turns.
pub check_path : ℕ → List ℕ → ℕ → Option (Outcome (Unit {0}))
check_path turns dp dp_size = efidp_is_valid turns dp (some dp_size) >>>= λ valid.
    if not valid
    then some (err einval)
    else (efidp_size turns dp >>>= λ size.
        if size == dp_size then some (ok tt) else some (err einval))

-- `efi_loadopt_create` with a buffer and a device path that are not NULL, and the optional data as a list.
pub efi_loadopt_create : ℕ → List ℕ → ℕ → List ℕ → ℕ → List ℕ → List ℕ → Option (Outcome Created)
unfolding fill check_path
efi_loadopt_create turns buf attributes dp dp_size description optional_data =
    some (utf8len (description ++ (0 ∷ [])) (some 1024)) >>>= λ n.
    let desc_len = n * 2 + 2 in
    let sz = 6 + desc_len + dp_size + length optional_data in
    if length buf == 0
    then some (ok (record { rc = sz; buffer = buf }))
    else if ltb (length buf) sz
    then some (err enospc)
    else (check_path turns dp dp_size >>>= λ checked.
        some (fill attributes dp dp_size desc_len description optional_data buf) >>>= λ filled.
        some (ok (record { rc = sz; buffer = filled })))

pub efi_loadopt_attrs : List ℕ → Outcome ℕ
efi_loadopt_attrs opt = load_le 0 4 opt

-- `efi_loadopt_pathlen` with a limit that is not negative. The subtraction is of `size_t`, and a limit below 4 wraps
-- around to a number that is not below any length.
pub efi_loadopt_pathlen : List ℕ → ℕ → Outcome ℕ
efi_loadopt_pathlen opt limit = load_le 4 2 opt >>= λ len.
    if ltb limit len then ok 0 else if leb 4 limit && ltb (limit - 4) len then ok 0 else ok len
