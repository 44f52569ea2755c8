-- ===== src/DevicePath/Tests.antt =====
-- A concrete device path, and the theorems at it.
use efivar.Common.{◌+◌, true, false, refl, length, ◌≡◌, arith, [], ◌∷◌, ◌++◌, All, some, none}
use efivar.Common.Outcome.{ok}
use efivar.Common.Memory.{le_bytes}
use efivar.DevicePath.{
  end_node, efidp_size, efidp_append_node, efidp_append_path, efidp_duplicate_path,
}
use efivar.DevicePath.Layout.{encode_all, IsInner, encode_all, Node, encode, encode_all, path}
use efivar.DevicePath.Size.{efidp_size-path}
use efivar.DevicePath.Append.{
  IsPlain, plain-IsInner, efidp_append_node-path, efidp_append_path-path, efidp_duplicate_path-path,
}
use efivar.DevicePath.Valid.{accepts, efidp_is_valid, efidp_is_multiinstance, efidp_instance_size}
use efivar.DevicePath.Walk.{
  efidp_is_valid-first, efidp_is_valid-never, efidp_is_multiinstance-path, efidp_instance_size-path,
  has_instance, ends, verdict,
}
use efivar.DevicePath.Instances.{instance-IsInner, instance_node, efidp_append_node-never}

-- PciRoot(0x0)
abbrev pci_root : Node
pci_root = record { kind = 2; sub = 1; body = 0xd0 ∷ 0x41 ∷ 0x03 ∷ 0x0a ∷ 0 ∷ 0 ∷ 0 ∷ 0 ∷ [] }

-- Pci(0x1f,0x2)
abbrev pci : Node
pci = record { kind = 1; sub = 1; body = 2 ∷ 0x1f ∷ [] }

one-IsPlain : All IsPlain (pci_root ∷ [])
one-IsPlain = (record { not_end = omega arith; fits = omega arith }, tt)

two-IsPlain : All IsPlain (pci_root ∷ pci ∷ [])
two-IsPlain = (
  record { not_end = omega arith; fits = omega arith },
  (record { not_end = omega arith; fits = omega arith }, tt),
)

two-IsInner : All IsInner (pci_root ∷ pci ∷ [])
two-IsInner = plain-IsInner (pci_root ∷ pci ∷ []) two-IsPlain

two_bytes : length (path (pci_root ∷ pci ∷ [])) ≡ 22
unfolding path encode_all encode le_bytes
two_bytes = refl

efidp_size-path_example :
    efidp_size 3 (path (pci_root ∷ pci ∷ []) ++ (0xaa ∷ []))
    ≡ some (ok (length (path (pci_root ∷ pci ∷ []))))
efidp_size-path_example =
    efidp_size-path (pci_root ∷ pci ∷ []) 3 (0xaa ∷ []) two-IsInner (omega arith)

efidp_append_node-path_example :
    efidp_append_node 3 (path (pci_root ∷ []) ++ []) (encode pci ++ [])
    ≡ some (ok (path (pci_root ∷ pci ∷ [])))
efidp_append_node-path_example =
    efidp_append_node-path (pci_root ∷ []) pci 3 [] [] one-IsPlain two-IsInner.1.0 (omega arith)

efidp_append_path-path_example :
    efidp_append_path 4 (path (pci_root ∷ []) ++ []) (path (pci_root ∷ pci ∷ []) ++ [])
    ≡ some (ok (path (pci_root ∷ pci_root ∷ pci ∷ [])))
efidp_append_path-path_example =
    efidp_append_path-path (pci_root ∷ []) (pci_root ∷ pci ∷ []) 4 [] [] one-IsPlain two-IsInner
      (omega arith) (omega arith)

efidp_duplicate_path-path_example :
    efidp_duplicate_path 3 (path (pci_root ∷ pci ∷ []) ++ (1 ∷ []))
    ≡ some (ok (path (pci_root ∷ pci ∷ [])))
efidp_duplicate_path-path_example =
    efidp_duplicate_path-path (pci_root ∷ pci ∷ []) 3 (1 ∷ []) two-IsInner (omega arith)

efidp_append_node-never_example :
    efidp_append_node 100 (path (pci_root ∷ instance_node ∷ pci ∷ []) ++ []) (encode pci) ≡ none
efidp_append_node-never_example =
    efidp_append_node-never (pci_root ∷ []) (pci ∷ []) 100 [] (encode pci) one-IsPlain
      (two-IsInner.1.0, tt)

efidp_is_valid-first_example :
    efidp_is_valid 2 (ends (1 ∷ []) (encode pci ++ (0x55 ∷ 0x55 ∷ []))) (some 10)
    ≡ some (ok (verdict 10 1 pci))
efidp_is_valid-first_example =
    efidp_is_valid-first (1 ∷ []) pci 2 10 (0x55 ∷ 0x55 ∷ []) two-IsInner.1.0 (omega arith)
      (omega arith)

verdict_within : verdict 10 1 pci ≡ true
unfolding verdict accepts
verdict_within = refl

-- The limit is one byte short of the node.
verdict_beyond : verdict 9 1 pci ≡ false
unfolding verdict accepts
verdict_beyond = refl

efidp_is_valid-never_example : efidp_is_valid 50 (0x7f ∷ 0xff ∷ 0 ∷ 0 ∷ []) (some 4) ≡ none
efidp_is_valid-never_example = efidp_is_valid-never 50 4 0xff [] (omega arith)

efidp_is_multiinstance-path_example :
    efidp_is_multiinstance 3
      (encode pci_root ++ (encode_all (instance_node ∷ pci ∷ []) ++ (end_node ++ [])))
    ≡ some (ok (has_instance (instance_node ∷ pci ∷ [])))
efidp_is_multiinstance-path_example =
    efidp_is_multiinstance-path pci_root (instance_node ∷ pci ∷ []) 3 [] two-IsInner.0
      (instance-IsInner, (two-IsInner.1.0, tt)) (omega arith)

efidp_instance_size-path_example :
    efidp_instance_size 3 (encode_all (pci_root ∷ pci ∷ []) ++ (0x7f ∷ 1 ∷ 4 ∷ 0 ∷ []))
    ≡ some (ok (length (encode_all (pci_root ∷ pci ∷ [])) + 4))
efidp_instance_size-path_example =
    efidp_instance_size-path (pci_root ∷ pci ∷ []) 1 3 [] two-IsPlain (omega arith)
