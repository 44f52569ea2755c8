-- ===== src/DeviceNode/Nodes.antt =====
-- The nodes that the makers make, as data, and that they make these.
use efivar.Common.{
  ℕ, ◌+◌, ◌^◌, ◌≤◌, ◌<◌, ◌≡◌, ◌≢◌, inl, refl, ap, sym, ◌∙◌, Bool, Option, none, some, List, [], ◌∷◌,
  ◌++◌, length, take, drop, replicate, All, length-append, length-take, if◌then◌else◌, arith,
}
use efivar.Common.Outcome.{Outcome, ok, ◌>>=◌}
use efivar.Common.Memory.{le_bytes, concat, store}
use efivar.Guid.{Guid}
use efivar.Guid.Layout.{guid_bytes}
use efivar.DevicePath.{end_type, efidp_append_node}
use efivar.DevicePath.Layout.{Node, IsInner, encode, path}
use efivar.DevicePath.Append.{IsPlain, efidp_append_node-path}
use efivar.DeviceNode.{
  Made, assign, assign_swapped, make_with, make_node, edd10_guid, sas_guid, htonl_bytes,
  htons_bytes, efidp_make_pci, efidp_make_edd10, efidp_make_acpi_hid, efidp_make_hd,
  efidp_make_ipv4, efidp_make_scsi, efidp_make_nvme, efidp_make_sata, efidp_make_atapi,
  efidp_make_sas, efidp_make_nvdimm, efidp_make_emmc, efidp_make_mac_addr, efidp_make_vendor,
}
use efivar.DeviceNode.Fields.{outcome, make_with-outcome, assign-Fills, assign_swapped-Fills}

-- A call of a maker: what it is to make.
pub data Call : Type 0 where
  pci : ℕ → ℕ → Call
  edd10 : ℕ → Call
  acpi_hid : ℕ → ℕ → Call
  hd : ℕ → ℕ → ℕ → List ℕ → ℕ → ℕ → Call
  ipv4 : ℕ → ℕ → ℕ → ℕ → ℕ → ℕ → ℕ → Bool → Call
  scsi : ℕ → ℕ → Call
  nvme : ℕ → Option (List ℕ) → Call
  sata : ℕ → ℕ → ℕ → Call
  atapi : ℕ → ℕ → ℕ → Call
  sas : ℕ → Call
  nvdimm : Guid → Call
  emmc : ℕ → Call
  vendor : ℕ → ℕ → Guid → List ℕ → Call
  mac_addr : ℕ → List ℕ → Call

unfoldable pub run : Call → List ℕ → Outcome Made
run (pci device function) buf = efidp_make_pci buf device function
run (edd10 hardware_device) buf = efidp_make_edd10 buf hardware_device
run (acpi_hid hid uid) buf = efidp_make_acpi_hid buf hid uid
run (hd num start size signature format signature_type) buf =
    efidp_make_hd buf num start size signature format signature_type
run (ipv4 local remote gateway netmask local_port remote_port protocol is_static) buf =
    efidp_make_ipv4 buf local remote gateway netmask local_port remote_port protocol is_static
run (scsi target lun) buf = efidp_make_scsi buf target lun
run (nvme namespace_id eui) buf = efidp_make_nvme buf namespace_id eui
run (sata hba_port port_multiplier_port lun) buf =
    efidp_make_sata buf hba_port port_multiplier_port lun
run (atapi primary slave lun) buf = efidp_make_atapi buf primary slave lun
run (sas sas_address) buf = efidp_make_sas buf sas_address
run (nvdimm uuid) buf = efidp_make_nvdimm buf uuid
run (emmc slot_id) buf = efidp_make_emmc buf slot_id
run (vendor type subtype guid contents) buf = efidp_make_vendor buf type subtype guid contents
run (mac_addr if_type mac) buf = efidp_make_mac_addr buf if_type mac

-- The parts of memory that a call copies have the size of their fields; the data of a vendor's node fit a node, which is
-- not of the end type.
abbrev pub IsComplete : Call → Type 0
IsComplete (hd _ _ _ signature _ _) = 16 ≤ length signature
IsComplete (nvme _ (some eui)) = 8 ≤ length eui
IsComplete (vendor type _ _ contents) = (20 + length contents < 2 ^ 16) × (type ≢ end_type)
IsComplete (mac_addr _ mac) = 32 ≤ length mac
IsComplete _ = Unit {0}

-- The fields of the node behind its header, in their order, with its type and subtype.
unfoldable pub fields : Call → List (List ℕ)
fields (pci device function) = (function ∷ []) ∷ (device ∷ []) ∷ []
fields (edd10 hardware_device) = guid_bytes edd10_guid ∷ le_bytes 4 hardware_device ∷ []
fields (acpi_hid hid uid) = le_bytes 4 hid ∷ le_bytes 4 uid ∷ []
fields (hd num start size signature format signature_type) =
    le_bytes 4 num
    ∷ le_bytes 8 start
    ∷ le_bytes 8 size
    ∷ take 16 signature
    ∷ (format ∷ [])
    ∷ (signature_type ∷ [])
    ∷ []
fields (ipv4 local remote gateway netmask local_port remote_port protocol is_static) =
    htonl_bytes local
    ∷ htonl_bytes remote
    ∷ htons_bytes local_port
    ∷ htons_bytes remote_port
    ∷ htons_bytes protocol
    ∷ ((if is_static then 1 else 0) ∷ [])
    ∷ htonl_bytes gateway
    ∷ htonl_bytes netmask
    ∷ []
fields (scsi target lun) = le_bytes 2 target ∷ le_bytes 2 lun ∷ []
fields (nvme namespace_id none) = le_bytes 4 namespace_id ∷ replicate 8 0 ∷ []
fields (nvme namespace_id (some eui)) = le_bytes 4 namespace_id ∷ take 8 eui ∷ []
fields (sata hba_port port_multiplier_port lun) =
    le_bytes 2 hba_port ∷ le_bytes 2 port_multiplier_port ∷ le_bytes 2 lun ∷ []
fields (atapi primary slave lun) = le_bytes 1 primary ∷ le_bytes 1 slave ∷ le_bytes 2 lun ∷ []
fields (sas sas_address) =
    guid_bytes sas_guid
    ∷ replicate 4 0
    ∷ le_bytes 8 sas_address
    ∷ replicate 8 0
    ∷ (0 ∷ [])
    ∷ (0 ∷ [])
    ∷ replicate 2 0
    ∷ []
fields (nvdimm uuid) = guid_bytes uuid ∷ []
fields (emmc slot_id) = le_bytes 1 slot_id ∷ []
fields (vendor type subtype guid contents) = guid_bytes guid ∷ contents ∷ []
fields (mac_addr if_type mac) = take 32 mac ∷ (if_type ∷ []) ∷ []

unfoldable pub kind : Call → ℕ × ℕ
kind (pci _ _) = (1, 1)
kind (edd10 _) = (1, 4)
kind (acpi_hid _ _) = (2, 1)
kind (hd _ _ _ _ _ _) = (4, 1)
kind (ipv4 _ _ _ _ _ _ _ _) = (3, 0x0c)
kind (scsi _ _) = (3, 2)
kind (nvme _ _) = (3, 0x17)
kind (sata _ _ _) = (3, 0x12)
kind (atapi _ _ _) = (3, 1)
kind (sas _) = (3, 0x0a)
kind (nvdimm _) = (3, 0x20)
kind (emmc _) = (3, 0x17)
kind (vendor type subtype _ _) = (type, subtype)
kind (mac_addr _ _) = (3, 0x0b)

unfoldable pub node_of : Call → Node
unfolding fields kind concat
node_of call = record { kind = (kind call).0; sub = (kind call).1; body = concat (fields call) }

node-outcome :
    (buf : List ℕ) (type subtype req : ℕ) (fs : List (List ℕ))
    → 4 + length (concat fs) ≡ req
    → req < 2 ^ 16
    → make_node buf type subtype req fs
      ≡ outcome buf (record { kind = type; sub = subtype; body = concat fs })
unfolding make_node
node-outcome buf type subtype req fs size max =
    ap (λ (k : ℕ). make_with buf type subtype k (assign 4 fs)) (sym size)
    ∙ make_with-outcome buf (record { kind = type; sub = subtype; body = concat fs }) (assign 4 fs)
        (omega (arith, size, max)) (assign-Fills type subtype fs)

-- Each maker of a node, called with any buffer: an empty one is left alone, and the size of the node is returned; one that is
-- too small is refused with ENOSPC; else the node is written to the front of it, its type, subtype and length and then its
-- fields, what is behind it is kept, and its size is returned. The signature of a partition has 16 bytes and the EUI-64
-- of an NVMe node 8, a MAC
-- address 32, and the data of a vendor fit a node of a type that is not the end type.
pub run-outcome :
    (call : Call) (buf : List ℕ) → IsComplete call → run call buf ≡ outcome buf (node_of call)
unfolding run node_of efidp_make_pci efidp_make_edd10 efidp_make_acpi_hid efidp_make_hd
    efidp_make_ipv4 efidp_make_scsi efidp_make_nvme efidp_make_sata efidp_make_atapi efidp_make_sas
    efidp_make_nvdimm efidp_make_emmc efidp_make_vendor efidp_make_mac_addr assign_swapped le_bytes
    guid_bytes htonl_bytes htons_bytes
run-outcome (pci device function) buf h =
    make_with-outcome buf (node_of (pci device function))
      (assign_swapped (function ∷ []) (device ∷ [])) (omega arith)
      (assign_swapped-Fills 1 1 (function ∷ []) (device ∷ []))
run-outcome (edd10 hardware_device) buf h =
    node-outcome buf 1 4 24 (fields (edd10 hardware_device)) refl (omega arith)
run-outcome (acpi_hid hid uid) buf h =
    make_with-outcome buf (node_of (acpi_hid hid uid))
      (assign_swapped (le_bytes 4 hid) (le_bytes 4 uid)) (omega arith)
      (assign_swapped-Fills 2 1 (le_bytes 4 hid) (le_bytes 4 uid))
run-outcome (hd num start size signature format signature_type) buf h =
    node-outcome buf 4 1 42 (fields (hd num start size signature format signature_type))
      (omega (
        arith,
        h,
        length-take 16 signature,
        length-append (take 16 signature) (format ∷ signature_type ∷ []),
      ))
      (omega arith)
run-outcome (ipv4 local remote gateway netmask local_port remote_port protocol is_static) buf h =
    node-outcome buf 3 0x0c 27
      (fields (ipv4 local remote gateway netmask local_port remote_port protocol is_static)) refl
      (omega arith)
run-outcome (scsi target lun) buf h =
    node-outcome buf 3 2 8 (fields (scsi target lun)) refl (omega arith)
run-outcome (nvme namespace_id none) buf h =
    node-outcome buf 3 0x17 16 (fields (nvme namespace_id none)) refl (omega arith)
run-outcome (nvme namespace_id (some eui)) buf h =
    node-outcome buf 3 0x17 16 (fields (nvme namespace_id (some eui)))
      (omega (arith, h, length-take 8 eui, length-append (take 8 eui) [])) (omega arith)
run-outcome (sata hba_port port_multiplier_port lun) buf h =
    node-outcome buf 3 0x12 10 (fields (sata hba_port port_multiplier_port lun)) refl (omega arith)
run-outcome (atapi primary slave lun) buf h =
    node-outcome buf 3 1 8 (fields (atapi primary slave lun)) refl (omega arith)
run-outcome (sas sas_address) buf h =
    node-outcome buf 3 0x0a 44 (fields (sas sas_address)) refl (omega arith)
run-outcome (nvdimm uuid) buf h =
    node-outcome buf 3 0x20 20 (fields (nvdimm uuid)) refl (omega arith)
run-outcome (emmc slot_id) buf h =
    node-outcome buf 3 0x17 5 (fields (emmc slot_id)) refl (omega arith)
run-outcome (vendor type subtype guid contents) buf h =
    node-outcome buf type subtype (20 + length contents)
      (fields (vendor type subtype guid contents)) (omega (arith, length-append contents []))
      (omega (arith, h))
run-outcome (mac_addr if_type mac) buf h =
    let address = take 32 mac in
    let size : length address ≡ 32 = omega (arith, h, length-take 32 mac) in
    let whole : length (address ++ (if_type ∷ [])) ≡ 33 =
      omega (arith, size, length-append address (if_type ∷ [])) in
    ap
      (λ (k : ℕ).
        make_with buf 3 0x0b (4 + k)
          (λ (made : List ℕ). store 36 (if_type ∷ []) made >>= λ buf1. store 4 address buf1))
      (sym whole)
    ∙ ap
        (λ (k : ℕ).
          make_with buf 3 0x0b (4 + length (address ++ (if_type ∷ [])))
            (λ (made : List ℕ). store (4 + k) (if_type ∷ []) made >>= λ buf1. store 4 address buf1))
        (sym size)
    ∙ make_with-outcome buf (node_of (mac_addr if_type mac)) (assign_swapped address (if_type ∷ []))
        (omega (arith, whole)) (assign_swapped-Fills 3 0x0b address (if_type ∷ []))

node_of-size : (call : Call) → IsComplete call → 4 + length (node_of call).body < 2 ^ 16
unfolding node_of le_bytes guid_bytes htonl_bytes htons_bytes
node_of-size (pci _ _) h = omega arith
node_of-size (edd10 _) h = omega arith
node_of-size (acpi_hid _ _) h = omega arith
node_of-size (hd _ _ _ signature format signature_type) h = omega (
  arith,
  length-take 16 signature,
  length-append (take 16 signature) (format ∷ signature_type ∷ []),
)
node_of-size (ipv4 _ _ _ _ _ _ _ _) h = omega arith
node_of-size (scsi _ _) h = omega arith
node_of-size (nvme _ none) h = omega arith
node_of-size (nvme _ (some eui)) h = omega (arith, length-take 8 eui, length-append (take 8 eui) [])
node_of-size (sata _ _ _) h = omega arith
node_of-size (atapi _ _ _) h = omega arith
node_of-size (sas _) h = omega arith
node_of-size (nvdimm _) h = omega arith
node_of-size (emmc _) h = omega arith
node_of-size (vendor _ _ _ contents) h = omega (arith, h, length-append contents [])
node_of-size (mac_addr if_type mac) h =
    omega (arith, h, length-take 32 mac, length-append (take 32 mac) (if_type ∷ []))

node_of-not_end : (call : Call) → IsComplete call → (node_of call).kind ≢ end_type
unfolding node_of
node_of-not_end (pci _ _) h = omega arith
node_of-not_end (edd10 _) h = omega arith
node_of-not_end (acpi_hid _ _) h = omega arith
node_of-not_end (hd _ _ _ _ _ _) h = omega arith
node_of-not_end (ipv4 _ _ _ _ _ _ _ _) h = omega arith
node_of-not_end (scsi _ _) h = omega arith
node_of-not_end (nvme _ _) h = omega arith
node_of-not_end (sata _ _ _) h = omega arith
node_of-not_end (atapi _ _ _) h = omega arith
node_of-not_end (sas _) h = omega arith
node_of-not_end (nvdimm _) h = omega arith
node_of-not_end (emmc _) h = omega arith
node_of-not_end (vendor _ _ _ _) h = h.1
node_of-not_end (mac_addr _ _) h = omega arith

-- A node that a maker has written to a buffer with room for it is what `efidp_append_node` takes: the path that it returns has
-- that node behind the nodes that it had, which are no end nodes and have lengths that fit their headers, within two
-- turns more than there are of these. What is copied has the sizes that the maker takes.
pub efidp_append_node-made :
    (call : Call) (buf : List ℕ) (ns : List Node) (turns : ℕ) (rest : List ℕ)
    → IsComplete call
    → 4 + length (node_of call).body ≤ length buf
    → All IsPlain ns
    → length ns + 1 < turns
    → (made : Made) × (run call buf ≡ ok made)
      × (efidp_append_node turns (path ns ++ rest) made.buffer
          ≡ some (ok (path (ns ++ (node_of call ∷ [])))))
unfolding outcome
efidp_append_node-made call buf ns turns rest h room plain enough =
    let size = 4 + length (node_of call).body in
    let node_fits : IsInner (node_of call) = record {
      inner = inl (node_of-not_end call h);
      fits = node_of-size call h;
    } in
    (
      record { rc = size; buffer = encode (node_of call) ++ drop size buf },
      run-outcome call buf h ∙ ground (arith, room),
      efidp_append_node-path ns (node_of call) turns rest (drop size buf) plain node_fits enough,
    )
