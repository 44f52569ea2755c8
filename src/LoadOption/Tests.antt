-- ===== src/LoadOption/Tests.antt =====
-- A concrete load option, and the theorem at it.
use efivar.Common.{
  inl, ℕ, ◌≡◌, refl, arith, List, [], ◌∷◌, length, replicate, drop, All, none, some, true, ◌+◌,
}
use efivar.Common.Outcome.{ok}
use efivar.Common.Memory.{concat, le_bytes, le_value, load_le, store}
use efivar.DevicePath.Layout.{Node, IsInner, encode, encode_all, path}
use efivar.DevicePath.Valid.{accepts}
use efivar.LoadOption.{efi_loadopt_create, efi_loadopt_attrs, efi_loadopt_pathlen}
use efivar.LoadOption.Create.{loadopt_size, loadopt_image, efi_loadopt_create-image}
use efivar.LoadOption.{Created}
use efivar.LoadOption.ReadBack.{efi_loadopt_create-read_back}
use efivar.LoadOption.Access.{
  efi_loadopt_path, efi_loadopt_optional_data, efi_loadopt_optional_data_size, efi_loadopt_is_valid,
  efi_loadopt_desc, efi_loadopt_args_as_utf8, efi_loadopt_attr_set,
}

-- Pci(0x1f,0x2)
abbrev pci : Node
pci = record { kind = 1; sub = 1; body = 2 ∷ 0x1f ∷ [] }

-- "Linux"
abbrev linux : List ℕ
linux = 0x4c ∷ 0x69 ∷ 0x6e ∷ 0x75 ∷ 0x78 ∷ []

one-IsInner : All IsInner (pci ∷ [])
one-IsInner = (record { inner = inl (omega arith); fits = omega arith }, tt)

efi_loadopt_create-image_example :
    (out : List ℕ) × (out
      ≡ concat (
          loadopt_image 1
            (path (pci ∷ []))
            linux
            (9 ∷ [])
            (drop (loadopt_size 1 (path (pci ∷ [])) linux (9 ∷ [])) (replicate 40 0))))
    × (efi_loadopt_create 3
          (replicate 40 0)
          1
          (path (pci ∷ []))
          (length (path (pci ∷ [])))
          linux
          (9 ∷ [])
        ≡ some (ok (record { rc = loadopt_size 1 (path (pci ∷ [])) linux (9 ∷ []); buffer = out })))
    × (efi_loadopt_attrs out ≡ ok 1)
    × (efi_loadopt_pathlen out (loadopt_size 1 (path (pci ∷ [])) linux (9 ∷ []))
        ≡ ok (length (path (pci ∷ []))))
efi_loadopt_create-image_example =
    efi_loadopt_create-image pci [] 1 3 linux (9 ∷ []) (replicate 40 0) one-IsInner (omega arith)
      (omega arith) (unfold accepts in refl) (omega arith) (omega arith) (omega arith) (omega arith)
      (omega arith) (unfold path encode_all encode le_bytes in omega arith)
      (unfold path encode_all encode le_bytes in omega arith)

efi_loadopt_create-read_back_example :
    (made : Created) × (efi_loadopt_create 4
        (replicate 40 0)
        1
        (path (pci ∷ []))
        (length (path (pci ∷ [])))
        linux
        (9 ∷ [])
      ≡ some (ok made))
    × (efi_loadopt_path 4 made.buffer made.rc ≡ some (ok (some 18)))
    × (efi_loadopt_optional_data made.buffer made.rc ≡ ok (18 + length (path (pci ∷ [])), 1))
    × (efi_loadopt_optional_data_size 4 made.buffer made.rc ≡ some (ok 1))
    × (efi_loadopt_is_valid 4 made.buffer made.rc ≡ some (ok true))
    × (efi_loadopt_desc made.buffer none ≡ ok linux)
efi_loadopt_create-read_back_example =
    efi_loadopt_create-read_back pci [] 1 3 linux (9 ∷ []) (replicate 40 0) one-IsInner
      (omega arith) (omega arith) (unfold accepts in refl) (omega arith) (omega arith) (omega arith)
      (omega arith) (omega arith) (unfold path encode_all encode le_bytes in omega arith)
      (unfold path encode_all encode le_bytes in omega arith) (omega arith)

args_copied :
    efi_loadopt_args_as_utf8 (some (0 ∷ 0 ∷ 7 ∷ [])) 3 (1 ∷ 2 ∷ []) ≡ ok (2, some (1 ∷ 2 ∷ 7 ∷ []))
unfolding efi_loadopt_args_as_utf8 store
args_copied = refl

attribute_added : efi_loadopt_attr_set (1 ∷ 0 ∷ 0 ∷ 0 ∷ 9 ∷ []) 8 ≡ ok (9 ∷ 0 ∷ 0 ∷ 0 ∷ 9 ∷ [])
unfolding efi_loadopt_attr_set load_le store le_bytes le_value
attribute_added = refl
