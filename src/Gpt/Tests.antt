-- ===== src/Gpt/Tests.antt =====
-- A concrete disk, and the theorems at it.
use efivar.Common.{
  ℕ, ◌≡◌, ◌↔◌, refl, ◌∙◌, subst, true, false, none, some, inl, arith, List, [], ◌∷◌, ◌++◌,
  replicate, ◌==◌, if◌then◌else◌, ltb, leb, ◌&&◌, ◌||◌,
}
use efivar.Common.Outcome.{ok, err, fault, einval, unset}
use efivar.Common.Memory.{le_bytes, le_value, load, store}
use efivar.Crc32.{efi_crc32, crc32_tab}
use efivar.Gpt.{Device, read_lba, header_of, Gpt, is_gpt_valid, validate_nptes}
use efivar.Gpt.Bounds.{Fits, validate_nptes_iff}
use efivar.Gpt.Checks.{Identity, cleared, table_start, table_end}
use efivar.Gpt.Valid.{IsGpt, is_gpt_valid_iff, is_gpt_valid-no_entries}
use efivar.Gpt.Disk.{find_valid_gpt, is_pmbr_valid, gpt_disk_get_partition_info}
use efivar.Gpt.Find.{
  prefer, find_valid_gpt-prefer, gpt_disk_get_partition_info-entry, entry_at, partition_of,
}

-- An EFI system partition of the blocks 4 to 7.
abbrev entry : List ℕ
entry =
    0x28
    ∷ 0x73
    ∷ 0x2a
    ∷ 0xc1
    ∷ 0x1f
    ∷ 0xf8
    ∷ 0xd2
    ∷ 0x11
    ∷ 0xba
    ∷ 0x4b
    ∷ 0
    ∷ 0xa0
    ∷ 0xc9
    ∷ 0x3e
    ∷ 0xc9
    ∷ 0x3b
    ∷ 1
    ∷ 2
    ∷ 3
    ∷ 4
    ∷ 5
    ∷ 6
    ∷ 7
    ∷ 8
    ∷ 9
    ∷ 10
    ∷ 11
    ∷ 12
    ∷ 13
    ∷ 14
    ∷ 15
    ∷ 16
    ∷ (le_bytes 8 4 ++ (le_bytes 8 7 ++ replicate 80 0))

-- The primary header of a disk of eleven blocks, with a number of entries and a CRC.
abbrev header : ℕ → ℕ → List ℕ
header nptes crc =
    le_bytes 8 0x5452415020494645
    ++ (le_bytes 4 0x10000
        ++ (le_bytes 4 92
            ++ (le_bytes 4 crc
                ++ (le_bytes 4 0
                    ++ (le_bytes 8 1
                        ++ (le_bytes 8 10
                            ++ (le_bytes 8 3
                                ++ (le_bytes 8 8
                                    ++ ((16 ∷ 17 ∷ 18 ∷ 19 ∷ 20 ∷ 21 ∷ 22 ∷ 23 ∷ 24 ∷ 25 ∷ 26 ∷ 27
                                          ∷ 28 ∷ 29 ∷ 30 ∷ 31 ∷ [])
                                        ++ (le_bytes 8 2
                                            ++ (le_bytes 4 nptes
                                                ++ (le_bytes 4 128
                                                    ++ (le_bytes 4 0xe53354f4
                                                        ++ replicate 420 0)))))))))))))

-- A protective MBR.
abbrev mbr : List ℕ
mbr = replicate 450 0 ++ (0xee ∷ (replicate 59 0 ++ (0x55 ∷ 0xaa ∷ [])))

-- A disk with a header in block 1 and the entry in block 2.
abbrev disk : List ℕ → Device
disk primary = record {
  sector_size = 512;
  lseek = λ (offset : ℕ). true;
  read_at = λ (offset : ℕ) (bytes : ℕ). some (
      if offset == 0
      then mbr
      else if offset == 512
      then primary
      else if offset == 1024
      then entry
      else replicate bytes 0);
  last_sector = λ (bytes : ℕ). none;
  last_lba = 10;
}

abbrev good : Device
good = disk (header 1 0x48eb5412)

abbrev table : Gpt
table = record { raw = header 1 0x48eb5412; ptes = entry }

run : is_gpt_valid good 1 512 ≡ ok table
unfolding is_gpt_valid header_of le_bytes le_value store load efi_crc32 crc32_tab
run = refl

run_last : is_gpt_valid good 10 512 ≡ err unset
unfolding is_gpt_valid header_of le_bytes le_value store load
run_last = refl

is_gpt_valid_iff_example : (is_gpt_valid good 1 512 ≡ ok table) ↔ IsGpt good 1 512 table
is_gpt_valid_iff_example = is_gpt_valid_iff good 1 512 (omega arith) table

validate_nptes_iff_example : (validate_nptes 2 2 3 128 4 512 ≡ ok true) ↔ Fits 2 2 3 128 4 512
validate_nptes_iff_example = validate_nptes_iff 2 2 3 128 4 512 (omega arith)

named : (g : Gpt) → is_gpt_valid good 1 512 ≡ ok g → (header_of g.raw).alternate_lba ≡ 10
unfolding header_of le_bytes le_value
named g e =
    let same : table ≡ g = cc run in
    subst (λ (t : Gpt). (header_of t.raw).alternate_lba ≡ 10) same refl

find_valid_gpt-prefer_example : find_valid_gpt good false 512 ≡ (
    if is_pmbr_valid (read_lba good 0 512).1 || false
    then prefer (is_gpt_valid good 1 512) (is_gpt_valid good 10 512)
    else ok none)
find_valid_gpt-prefer_example =
    find_valid_gpt-prefer good 512 (cc run_last) false (cc run)
      (λ g e. rw (named g e) (cc run_last))

found : find_valid_gpt good false 512 ≡ ok (some table)
found =
    find_valid_gpt-prefer_example ∙ (rw run (unfold is_pmbr_valid prefer read_lba le_value in refl))

gpt_disk_get_partition_info-entry_example : gpt_disk_get_partition_info good 1 false 512 ≡ (
    if ltb 0 1 && leb 1 (header_of table.raw).num_partition_entries
    then ok (some (partition_of (entry_at 1 table.ptes)))
    else err einval)
gpt_disk_get_partition_info-entry_example =
    gpt_disk_get_partition_info-entry good 1 512 false table (omega arith) found

-- The same disk with a header that counts no entries.
abbrev empty : List ℕ
empty = header 0 0xd34e187d

empty-Identity : Identity 1 512 empty (header_of empty)
unfolding header_of cleared le_bytes le_value efi_crc32 crc32_tab
empty-Identity = record {
  magic = refl;
  size_min = omega arith;
  size_block = omega arith;
  size_buffer = omega arith;
  checksum = refl;
  here = inl refl;
}

is_gpt_valid-no_entries_example : is_gpt_valid (disk empty) 1 512 ≡ fault
is_gpt_valid-no_entries_example =
    is_gpt_valid-no_entries (disk empty) 1 512 (omega arith) empty
      (unfold read_lba le_bytes in refl) empty-Identity
      (unfold header_of le_bytes le_value in omega arith)
      (unfold header_of le_bytes le_value in omega arith)
      (unfold header_of le_bytes le_value in refl)
      (unfold header_of le_bytes le_value table_start in omega arith)
      (unfold header_of le_bytes le_value table_end in omega arith)
      (unfold header_of le_bytes le_value table_end in omega arith)
