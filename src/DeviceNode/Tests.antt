-- ===== src/DeviceNode/Tests.antt =====
-- Concrete nodes, and the theorems at them.
use efivar.Common.{◌≡◌, arith, [], ◌∷◌, ◌++◌, replicate, some}
use efivar.Common.Outcome.{ok}
use efivar.DevicePath.{efidp_append_node}
use efivar.DevicePath.Layout.{Node, path}
use efivar.DeviceNode.{Made}
use efivar.DeviceNode.Fields.{outcome}
use efivar.DeviceNode.Nodes.{Call, hd, pci, run, node_of, run-outcome, efidp_append_node-made}

-- The first partition of a disk, from block 2048 on.
abbrev first_partition : Call
first_partition = hd 1 2048 4096 (replicate 16 0xab) 2 2

run-outcome_example :
    run first_partition (replicate 50 7) ≡ outcome (replicate 50 7) (node_of first_partition)
run-outcome_example = run-outcome first_partition (replicate 50 7) (omega arith)

-- PciRoot(0x0)
abbrev pci_root : Node
pci_root = record { kind = 2; sub = 1; body = 0xd0 ∷ 0x41 ∷ 0x03 ∷ 0x0a ∷ 0 ∷ 0 ∷ 0 ∷ 0 ∷ [] }

efidp_append_node-made_example :
    (made : Made) × (run (pci 0x1f 2) (replicate 6 0) ≡ ok made)
    × (efidp_append_node 3 (path (pci_root ∷ []) ++ []) made.buffer
        ≡ some (ok (path (pci_root ∷ node_of (pci 0x1f 2) ∷ []))))
efidp_append_node-made_example =
    efidp_append_node-made (pci 0x1f 2) (replicate 6 0) (pci_root ∷ []) 3 [] tt
      (unfold node_of in omega arith) (record { not_end = omega arith; fits = omega arith }, tt)
      (omega arith)
