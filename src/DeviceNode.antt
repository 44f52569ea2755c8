-- ===== src/DeviceNode.antt =====
-- src/dp.c, src/dp-hw.c, src/dp-acpi.c, src/dp-media.c and src/dp-message.c: the functions that make a node of a device path in
-- the caller's buffer. Their `size` is the length of the buffer; an empty one only asks for the size needed.
pub mod Fields
pub mod Nodes
mod Tests
use efivar.Common.{
  ℕ, ◌+◌, ◌/◌, ◌%◌, ◌^◌, Bool, true, false, not, ◌&&◌, Option, none, some, List, [], ◌∷◌, ◌++◌,
  length, take, replicate, leb, ◌==◌, if◌then◌else◌,
}
use efivar.Common.Words.{u16}
use efivar.Common.Outcome.{Outcome, ok, enospc, ◌>>=◌, ◌>>◌, guard}
use efivar.Common.Memory.{le_bytes, load, store}
use efivar.Guid.{Guid}
use efivar.Guid.Layout.{guid_bytes}

-- What is returned, and the buffer afterwards.
pub record Made : Type 0 where
  pub rc : ℕ
  pub buffer : List ℕ

-- `efidp_make_generic`, which returns the length as the header holds it.
pub efidp_make_generic : List ℕ → ℕ → ℕ → ℕ → Outcome Made
efidp_make_generic buf type subtype total_size =
    if length buf == 0 then ok (record { rc = total_size; buffer = buf }) else (do
      guard (leb total_size (length buf)) enospc
      buf1 ← store 0 (type ∷ []) buf
      buf2 ← store 1 (subtype ∷ []) buf1
      buf3 ← store 2 (le_bytes 2 (u16 total_size)) buf2
      ok (record { rc = u16 total_size; buffer = buf3 }))

-- The assignments to the fields of a struct, one behind the other from `at` on.
pub assign : ℕ → List (List ℕ) → List ℕ → Outcome (List ℕ)
assign at [] buf = ok buf
assign at (f ∷ fs) buf = do buf1 ← store at f buf; assign (at + length f) fs buf1

-- What the makers share: the header, and the assignments `if (size && sz == req)`.
pub make_with : List ℕ → ℕ → ℕ → ℕ → (List ℕ → Outcome (List ℕ)) → Outcome Made
unfolding efidp_make_generic
make_with buf type subtype req fill = do
  made ← efidp_make_generic buf type subtype req
  if not (length buf == 0) && made.rc == req
      then (do filled ← fill made.buffer; ok (record made { buffer = filled }))
      else ok made

-- The same with assignments to all fields in their order.
pub make_node : List ℕ → ℕ → ℕ → ℕ → List (List ℕ) → Outcome Made
unfolding make_with assign
make_node buf type subtype req fields = make_with buf type subtype req (assign 4 fields)

-- `EDD10_HARDWARE_VENDOR_PATH_GUID` and `EFIDP_MSG_SAS_GUID`
abbrev pub edd10_guid : Guid
edd10_guid = record {
  a = 0xcf31fac5;
  b = 0xc24e;
  c = 0x11d2;
  d = 0xf385;
  e0 = 0;
  e1 = 0xa0;
  e2 = 0xc9;
  e3 = 0x3e;
  e4 = 0xc9;
  e5 = 0x3b;
}

abbrev pub sas_guid : Guid
sas_guid = record {
  a = 0xd487ddb4;
  b = 0x008b;
  c = 0x11d9;
  d = 0xdcaf;
  e0 = 0;
  e1 = 0x10;
  e2 = 0x83;
  e3 = 0xff;
  e4 = 0xca;
  e5 = 0x4d;
}

-- `htonl` and `htons` as the bytes that memory holds.
pub htonl_bytes : ℕ → List ℕ
htonl_bytes n = n / 2 ^ 24 % 256 ∷ n / 2 ^ 16 % 256 ∷ n / 2 ^ 8 % 256 ∷ n % 256 ∷ []

pub htons_bytes : ℕ → List ℕ
htons_bytes n = n / 2 ^ 8 % 256 ∷ n % 256 ∷ []

pub efidp_make_vendor : List ℕ → ℕ → ℕ → Guid → List ℕ → Outcome Made
unfolding make_node
efidp_make_vendor buf type subtype vendor_guid contents =
    make_node buf type subtype (20 + length contents) (guid_bytes vendor_guid ∷ contents ∷ [])

pub efidp_make_edd10 : List ℕ → ℕ → Outcome Made
unfolding make_node
efidp_make_edd10 buf hardware_device =
    make_node buf 1 4 24 (guid_bytes edd10_guid ∷ le_bytes 4 hardware_device ∷ [])

-- The signature is not NULL.
pub efidp_make_hd : List ℕ → ℕ → ℕ → ℕ → List ℕ → ℕ → ℕ → Outcome Made
unfolding make_node
efidp_make_hd buf num part_start part_size signature format signature_type = make_node buf 4 1 42 (
    le_bytes 4 num
    ∷ le_bytes 8 part_start
    ∷ le_bytes 8 part_size
    ∷ take 16 signature
    ∷ (format ∷ [])
    ∷ (signature_type ∷ [])
    ∷ [])

-- Two fields that are assigned the second first.
pub assign_swapped : List ℕ → List ℕ → List ℕ → Outcome (List ℕ)
assign_swapped first second buf = do buf1 ← store (4 + length first) second buf; store 4 first buf1

pub efidp_make_pci : List ℕ → ℕ → ℕ → Outcome Made
unfolding make_with assign_swapped
efidp_make_pci buf device function =
    make_with buf 1 1 6 (assign_swapped (function ∷ []) (device ∷ []))

pub efidp_make_acpi_hid : List ℕ → ℕ → ℕ → Outcome Made
unfolding make_with assign_swapped
efidp_make_acpi_hid buf hid uid =
    make_with buf 2 1 12 (assign_swapped (le_bytes 4 hid) (le_bytes 4 uid))

-- The address is of at least 32 bytes, or of `mac_addr_size` bytes if these are fewer; what is left of the field is kept.
pub efidp_make_mac_addr : List ℕ → ℕ → List ℕ → Outcome Made
unfolding make_with
efidp_make_mac_addr buf if_type mac_addr =
    make_with buf 3 0x0b 37
      (λ (made : List ℕ). store 36 (if_type ∷ []) made >>= λ buf1. store 4 (take 32 mac_addr) buf1)

pub efidp_make_ipv4 : List ℕ → ℕ → ℕ → ℕ → ℕ → ℕ → ℕ → ℕ → Bool → Outcome Made
unfolding make_node htonl_bytes htons_bytes
efidp_make_ipv4 buf local remote gateway netmask local_port remote_port protocol is_static =
    make_node buf 3 0x0c 27 (
      htonl_bytes local
      ∷ htonl_bytes remote
      ∷ htons_bytes local_port
      ∷ htons_bytes remote_port
      ∷ htons_bytes protocol
      ∷ ((if is_static then 1 else 0) ∷ [])
      ∷ htonl_bytes gateway
      ∷ htonl_bytes netmask
      ∷ [])

pub efidp_make_scsi : List ℕ → ℕ → ℕ → Outcome Made
unfolding make_node
efidp_make_scsi buf target lun = make_node buf 3 2 8 (le_bytes 2 target ∷ le_bytes 2 lun ∷ [])

pub efidp_make_nvme : List ℕ → ℕ → Option (List ℕ) → Outcome Made
unfolding make_node
efidp_make_nvme buf namespace_id ieee_eui_64 = make_node buf 3 0x17 16 (
    le_bytes 4 namespace_id
    ∷ elim ieee_eui_64 [ none ↦ replicate 8 0 | some eui ↦ take 8 eui ]
    ∷ [])

pub efidp_make_sata : List ℕ → ℕ → ℕ → ℕ → Outcome Made
unfolding make_node
efidp_make_sata buf hba_port port_multiplier_port lun =
    make_node buf 3 0x12 10
      (le_bytes 2 hba_port ∷ le_bytes 2 port_multiplier_port ∷ le_bytes 2 lun ∷ [])

-- The fields `primary` and `slave` hold a byte each.
pub efidp_make_atapi : List ℕ → ℕ → ℕ → ℕ → Outcome Made
unfolding make_node
efidp_make_atapi buf primary slave lun =
    make_node buf 3 1 8 (le_bytes 1 primary ∷ le_bytes 1 slave ∷ le_bytes 2 lun ∷ [])

pub efidp_make_sas : List ℕ → ℕ → Outcome Made
unfolding make_node
efidp_make_sas buf sas_address = make_node buf 3 0x0a 44 (
    guid_bytes sas_guid
    ∷ le_bytes 4 0
    ∷ le_bytes 8 sas_address
    ∷ le_bytes 8 0
    ∷ (0 ∷ [])
    ∷ (0 ∷ [])
    ∷ le_bytes 2 0
    ∷ [])

pub efidp_make_nvdimm : List ℕ → Guid → Outcome Made
unfolding make_node
efidp_make_nvdimm buf uuid = make_node buf 3 0x20 20 (guid_bytes uuid ∷ [])

-- The subtype is that of an NVMe node.
pub efidp_make_emmc : List ℕ → ℕ → Outcome Made
unfolding make_node
efidp_make_emmc buf slot_id = make_node buf 3 0x17 5 (le_bytes 1 slot_id ∷ [])
