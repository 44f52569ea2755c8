-- ===== src/Gpt.antt =====
-- src/gpt.c and src/gpt.h: the GUID partition table on a disk. What the code asks the system for, `lseek`, `read`, `fstat`
-- and the ioctls, is a `Device`.
pub mod Bounds
pub mod Reads
pub mod Checks
pub mod Valid
pub mod Disk
pub mod Find
mod Tests
use efivar.Common.{
  ℕ, zero, suc, ◌+◌, ◌-◌, ◌*◌, ◌/◌, ◌%◌, ◌^◌, Bool, true, false, not, ◌&&◌, ◌||◌, Option, none,
  some, List, ◌++◌, length, take, drop, get_or, replicate, ltb, leb, ◌==◌, if◌then◌else◌,
}
use efivar.Common.Words.{u32, u64}
use efivar.Common.Outcome.{Outcome, ok, err, fault, einval, unset, ◌>>=◌, ◌>>◌, guard}
use efivar.Common.Memory.{le_bytes, le_value, load, store}
use efivar.Crc32.{efi_crc32}
use efivar.Guid.{Guid}
use efivar.Guid.Layout.{guid_of_bytes}

-- The open device: the size of a sector, whether `lseek` reaches an offset, what `read` delivers from an offset on when a
-- number of bytes is wanted (`none` is a failure, a list that ends early a short read), what the ioctl for the
-- last sector of an odd-sized disk delivers, and the number of the last block (`last_lba`).
pub record Device : Type 0 where
  pub sector_size : ℕ
  pub lseek : ℕ → Bool
  pub read_at : ℕ → ℕ → Option (List ℕ)
  pub last_sector : ℕ → Option (List ℕ)
  pub last_lba : ℕ

-- The first `bytes` bytes of a buffer of zeros after a read into it.
pub filled : ℕ → List ℕ → List ℕ
filled bytes bs = take bytes (bs ++ replicate bytes 0)

-- `read_lastoddsector`
pub read_lastoddsector : ℕ → Option (List ℕ) → Bool × List ℕ
unfolding filled
read_lastoddsector bytes none = (false, replicate bytes 0)
read_lastoddsector bytes (some bs) = (true, filled bytes bs)

-- What `read_lba` makes of the result of `read`: -1 is not 0.
pub delivered : Device → ℕ → ℕ → Option (List ℕ) → Bool × List ℕ
unfolding filled read_lastoddsector
delivered dev lba bytes none = (true, replicate bytes 0)
delivered dev lba bytes (some bs) =
    if length bs == 0 && (dev.last_lba % 2 == 0 && lba == dev.last_lba)
    then read_lastoddsector bytes (dev.last_sector bytes)
    else (not (length bs == 0), filled bytes bs)

-- `read_lba` into a buffer that the caller has set to zero: whether the result is not 0, and the buffer. The code reads
-- to a buffer of its own, of a whole number of sectors, and copies `bytes` bytes.
pub read_lba : Device → ℕ → ℕ → Bool × List ℕ
unfolding delivered
read_lba dev lba bytes =
    let offset = u64 (lba * dev.sector_size) in
    if not (dev.lseek offset)
    then (false, replicate bytes 0)
    else delivered dev lba bytes (dev.read_at offset bytes)

-- `alloc_read_gpt_header` and `alloc_read_gpt_entries`: a NULL pointer is an error.
pub alloc_read_gpt_header : Device → ℕ → Outcome (List ℕ)
unfolding read_lba
alloc_read_gpt_header dev lba = do let r = read_lba dev lba 512; guard r.0 unset; ok r.1

pub alloc_read_gpt_entries : Device → ℕ → ℕ → ℕ → Outcome (List ℕ)
unfolding read_lba
alloc_read_gpt_entries dev nptes ptesz ptelba = do
  let count = u32 (nptes * ptesz)
  guard (not (count == 0)) unset
  let r = read_lba dev ptelba count
  guard r.0 unset
  ok r.1

-- `gpt_header`, without the reserved parts.
pub record Header : Type 0 where
  pub magic : ℕ
  pub revision : ℕ
  pub header_size : ℕ
  pub header_crc32 : ℕ
  pub my_lba : ℕ
  pub alternate_lba : ℕ
  pub first_usable_lba : ℕ
  pub last_usable_lba : ℕ
  pub disk_guid : Guid
  pub partition_entry_lba : ℕ
  pub num_partition_entries : ℕ
  pub sizeof_partition_entry : ℕ
  pub partition_entry_array_crc32 : ℕ

-- The little-endian field of `w` bytes at `at`.
pub field : ℕ → ℕ → List ℕ → ℕ
field at w raw = le_value (take w (drop at raw))

pub header_of : List ℕ → Header
unfolding field
header_of raw = record {
  magic = field 0 8 raw;
  revision = field 8 4 raw;
  header_size = field 12 4 raw;
  header_crc32 = field 16 4 raw;
  my_lba = field 24 8 raw;
  alternate_lba = field 32 8 raw;
  first_usable_lba = field 40 8 raw;
  last_usable_lba = field 48 8 raw;
  disk_guid = guid_of_bytes (take 16 (drop 56 raw));
  partition_entry_lba = field 72 8 raw;
  num_partition_entries = field 80 4 raw;
  sizeof_partition_entry = field 84 4 raw;
  partition_entry_array_crc32 = field 88 4 raw;
}

abbrev pub uint64_max : ℕ
uint64_max = 2 ^ 64 - 1

-- `validate_nptes`. The sizes of `gpt_entry` and of its padding are 128 and 0. The division by `nptes` is undefined
-- at 0.
pub validate_nptes : ℕ → ℕ → ℕ → ℕ → ℕ → ℕ → Outcome Bool
validate_nptes first_block pte_start last_block ptesz nptes blksz =
    let max_blocks = last_block - pte_start in
    let max_bytes = max_blocks * blksz in
    if ltb ptesz 128
    then ok false
    else if ltb pte_start first_block || ltb last_block pte_start
    then ok false
    else if ltb (uint64_max / blksz) max_blocks
    then ok false
    else if ltb (uint64_max / ptesz) max_bytes
    then ok false
    else if nptes == 0
    then fault
    else if ltb (max_bytes / nptes) ptesz
    then ok false
    else if ltb (max_bytes / ptesz) nptes
    then ok false
    else ok true

pub check_lba : ℕ → ℕ → Bool
check_lba lba lastlba = not (ltb lastlba lba)

abbrev pub gpt_header_magic : ℕ
gpt_header_magic = 0x5452415020494645

-- The CRC of the header with its own field set to zero. A header size of more than 512 bytes reads behind the
-- allocation.
pub header_crc : ℕ → List ℕ → Outcome ℕ
header_crc size raw = do
  cleared ← store 16 (le_bytes 4 0) raw
  covered ← load 0 size cleared
  ok (efi_crc32 covered)

-- The tests of `is_gpt_valid` on the header: that it is one, and the one of this block.
pub check_identity : ℕ → ℕ → List ℕ → Header → Outcome (Unit {0})
unfolding header_crc
check_identity lba logical_block_size raw h = do
  guard (h.magic == gpt_header_magic) unset
  guard (leb 92 h.header_size && leb h.header_size logical_block_size) unset
  crc ← header_crc h.header_size raw
  guard (crc == h.header_crc32) unset
  guard (h.my_lba == lba || h.alternate_lba == lba) unset

-- That the blocks that it names are on the disk.
pub check_lbas : ℕ → Header → Outcome (Unit {0})
unfolding check_lba
check_lbas max_device_lba h = do
  guard (check_lba h.my_lba max_device_lba) unset
  guard (check_lba h.alternate_lba max_device_lba) unset
  guard (check_lba h.partition_entry_lba max_device_lba) unset
  guard (check_lba h.first_usable_lba max_device_lba) unset
  guard (check_lba h.last_usable_lba max_device_lba) unset

-- That the array of entries has sizes that make sense.
pub check_sizes : Header → Outcome (Unit {0})
check_sizes h = do
  guard (leb 128 h.sizeof_partition_entry && h.sizeof_partition_entry % 128 == 0) unset
  guard (leb h.num_partition_entries 1024) unset
  guard (leb h.sizeof_partition_entry 4096) unset

-- The blocks between which the entries lie: behind a primary header, before an alternate one.
pub check_room : ℕ → Header → Outcome (Unit {0})
unfolding validate_nptes
check_room logical_block_size h = do
  fits ←
      (if ltb h.my_lba h.alternate_lba
        then validate_nptes (u64 (h.my_lba + 1)) h.partition_entry_lba h.first_usable_lba
            h.sizeof_partition_entry h.num_partition_entries logical_block_size
        else validate_nptes h.last_usable_lba h.partition_entry_lba h.my_lba
            h.sizeof_partition_entry h.num_partition_entries logical_block_size)
  guard fits unset

-- The header as it was read, and the array of entries.
pub record Gpt : Type 0 where
  pub raw : List ℕ
  pub ptes : List ℕ

-- All tests of `is_gpt_valid` before the entries are read.
pub check_header : Device → ℕ → ℕ → List ℕ → Header → Outcome (Unit {0})
unfolding check_identity check_lbas check_sizes check_room
check_header dev lba logical_block_size raw h = do
  check_identity lba logical_block_size raw h
  check_lbas dev.last_lba h
  check_sizes h
  check_room logical_block_size h

-- The array of entries, with its CRC.
pub read_entries : Device → List ℕ → Header → Outcome Gpt
unfolding alloc_read_gpt_entries
read_entries dev raw h = do
  ptes ←
      alloc_read_gpt_entries dev h.num_partition_entries h.sizeof_partition_entry
        h.partition_entry_lba
  guard (efi_crc32 ptes == h.partition_entry_array_crc32) unset
  ok (record { raw = raw; ptes = ptes })

-- `is_gpt_valid`; an error is the return of 0.
pub is_gpt_valid : Device → ℕ → ℕ → Outcome Gpt
unfolding alloc_read_gpt_header check_header read_entries
is_gpt_valid dev lba logical_block_size = do
  raw ← alloc_read_gpt_header dev lba
  check_header dev lba logical_block_size raw (header_of raw)
  read_entries dev raw (header_of raw)
