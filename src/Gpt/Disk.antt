-- ===== src/Gpt/Disk.antt =====
-- src/gpt.c: `is_pmbr_valid`, `compare_gpts`, `find_valid_gpt` and `gpt_disk_get_partition_info`.
use efivar.Common.{
  ℕ, zero, suc, ◌+◌, ◌-◌, ◌*◌, ◌^◌, Bool, true, false, ◌&&◌, ◌||◌, Option, none, some, List, [],
  ◌∷◌, take, drop, get_or, ltb, leb, ◌==◌, if◌then◌else◌,
}
use efivar.Common.Words.{u64}
use efivar.Common.Outcome.{Outcome, ok, err, fault, einval, ◌>>=◌, ◌>>◌, guard}
use efivar.Common.Memory.{load, load_le}
use efivar.Guid.{Guid}
use efivar.Guid.Layout.{guid_of_bytes}
use efivar.Gpt.{Device, read_lba, field, header_of, Gpt, is_gpt_valid}

-- The loop over the partition records from the one with the index `i` on: whether one has the type 0xee.
unfoldable pub has_protective : ℕ → ℕ → List ℕ → Bool
has_protective zero i mbr = false
has_protective (suc left) i mbr =
    if get_or mbr (446 + 16 * i + 4) 0 == 0xee then true else has_protective left (i + 1) mbr

-- `is_pmbr_valid` of a sector of 512 bytes
unfoldable pub is_pmbr_valid : List ℕ → Bool
unfolding has_protective field
is_pmbr_valid mbr = if field 510 2 mbr == 0xaa55 then has_protective 4 0 mbr else false

-- A test that counts an error.
abbrev pub differs : ℕ → ℕ → ℕ
differs a b = if a == b then 0 else 1

-- `memcmp` of two pieces of memory of the same length that finds no difference
unfoldable pub same_bytes : List ℕ → List ℕ → Bool
same_bytes [] ys = true
same_bytes (x ∷ xs) [] = true
same_bytes (x ∷ xs) (y ∷ ys) = x == y && same_bytes xs ys

-- `compare_gpts`: the number of discrepancies that it warns of.
unfoldable pub compare_gpts : List ℕ → List ℕ → ℕ → ℕ
unfolding header_of same_bytes
compare_gpts pgpt agpt lastlba =
    let p = header_of pgpt in
    let a = header_of agpt in
    differs p.my_lba a.alternate_lba
    + differs p.alternate_lba a.my_lba
    + differs p.first_usable_lba a.first_usable_lba
    + differs p.last_usable_lba a.last_usable_lba
    + (if same_bytes (take 16 (drop 56 pgpt)) (take 16 (drop 56 agpt)) then 0 else 1)
    + differs p.num_partition_entries a.num_partition_entries
    + differs p.sizeof_partition_entry a.sizeof_partition_entry
    + differs p.partition_entry_array_crc32 a.partition_entry_array_crc32
    + differs p.alternate_lba lastlba
    + differs a.my_lba lastlba

-- The result of `is_gpt_valid` as the code keeps it: a table, or NULL.
abbrev pub attempt {ℓ} : {A : Type ℓ} → Outcome A → Outcome (Option A)
attempt (ok a) = ok (some a)
attempt (err e) = ok none
attempt fault = fault

-- `if (!good_agpt)`: the last block of the disk.
unfoldable pub or_last : Device → ℕ → Option Gpt → Outcome (Option Gpt)
or_last dev lbs none = attempt (is_gpt_valid dev dev.last_lba lbs)
or_last dev lbs (some agpt) = ok (some agpt)

-- The alternate table: where the primary one says, or at the last block.
unfoldable pub find_alternate : Device → ℕ → Option Gpt → Outcome (Option Gpt)
unfolding or_last
find_alternate dev lbs none = or_last dev lbs none
find_alternate dev lbs (some pgpt) = do
  agpt ← attempt (is_gpt_valid dev (header_of pgpt.raw).alternate_lba lbs)
  or_last dev lbs agpt

-- The good cases, and the obviously unsuccessful one.
unfoldable pub choose : Option Gpt → Option Gpt → Option Gpt
choose (some pgpt) agpt = some pgpt
choose none (some agpt) = some agpt
choose none none = none

-- `find_valid_gpt`: an `ok none` is a return of -1. Its `errno` is not modelled, since it is EINVAL or what a system call that
-- failed has set. The warnings of `compare_gpts` do not change the result, and what is freed is not kept.
unfoldable pub find_valid_gpt : Device → Bool → ℕ → Outcome (Option Gpt)
unfolding find_alternate choose
find_valid_gpt dev ignore_pmbr_err logical_block_size = do
  pgpt ← attempt (is_gpt_valid dev 1 logical_block_size)
  agpt ← find_alternate dev logical_block_size pgpt
  ok (if is_pmbr_valid (read_lba dev 0 512).1 || ignore_pmbr_err then choose pgpt agpt else none)

-- What `gpt_disk_get_partition_info` stores for the caller.
pub record Partition : Type 0 where
  pub start : ℕ
  pub size : ℕ
  pub signature : Guid
  pub mbr_type : ℕ
  pub signature_type : ℕ

-- The partition of a table that was found. The entry is found by the size of `gpt_entry`, 128.
unfoldable pub read_partition : ℕ → Gpt → Outcome Partition
read_partition num gpt = do
  guard (ltb 0 num && leb num (header_of gpt.raw).num_partition_entries) einval
  let p = 128 * (num - 1)
  starting_lba ← load_le (p + 32) 8 gpt.ptes
  ending_lba ← load_le (p + 40) 8 gpt.ptes
  unique_guid ← load (p + 16) 16 gpt.ptes
  ok (record {
    start = starting_lba;
    size = u64 (ending_lba + 2 ^ 64 - starting_lba + 1);
    signature = guid_of_bytes unique_guid;
    mbr_type = 2;
    signature_type = 2;
  })

-- `gpt_disk_get_partition_info`: an `ok none` is the return of -1 where no table is found, with the `errno` of `find_valid_gpt`.
unfoldable pub gpt_disk_get_partition_info : Device → ℕ → Bool → ℕ → Outcome (Option Partition)
unfolding find_valid_gpt read_partition
gpt_disk_get_partition_info dev num ignore_pmbr_error logical_block_size = do
  found ← find_valid_gpt dev ignore_pmbr_error logical_block_size
  elim found [
    | none ↦ ok none
    | some gpt ↦ read_partition num gpt >>= λ partition. ok (some partition)
  ]
