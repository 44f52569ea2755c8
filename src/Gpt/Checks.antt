-- ===== src/Gpt/Checks.antt =====
-- src/gpt.c: what the tests of a header accept.
use efivar.Common.{
  ℕ, ◌+◌, ◌*◌, ◌%◌, ◌^◌, ◌≤◌, ◌<◌, ◌≡◌, ◌↔◌, ◌⊎◌, List, ◌∷◌, ◌++◌, length, ◌-◌, take, drop,
  length-append, if◌then◌else◌, length-take, length-drop, ltb, arith,
}
use efivar.Common.Outcome.{ok, fault, >>-returned}
use efivar.Common.Memory.{le_bytes, load, store}
use efivar.Crc32.{efi_crc32}
use efivar.Gpt.{
  Device, Header, gpt_header_magic, check_lba, header_crc, check_identity, check_lbas, check_sizes,
  check_room, check_header,
}
use efivar.Gpt.Bounds.{Fits, validate_nptes-no_entries, validate_nptes_iff}

-- A header without its own CRC.
unfoldable pub cleared : List ℕ → List ℕ
cleared raw = take 16 raw ++ (0 ∷ 0 ∷ 0 ∷ 0 ∷ drop 20 raw)

-- A header, and the one of this block.
pub record Identity (lba lbs : ℕ) (raw : List ℕ) (h : Header) : Type 0 where
  pub magic : h.magic ≡ gpt_header_magic
  pub size_min : 92 ≤ h.header_size
  pub size_block : h.header_size ≤ lbs
  pub size_buffer : h.header_size ≤ 512
  pub checksum : efi_crc32 (take h.header_size (cleared raw)) ≡ h.header_crc32
  pub here : (h.my_lba ≡ lba) ⊎ (h.alternate_lba ≡ lba)

-- The blocks that it names are on a disk whose last block is `last`.
pub record OnDisk (h : Header) (last : ℕ) : Type 0 where
  pub my : h.my_lba ≤ last
  pub alternate : h.alternate_lba ≤ last
  pub entries : h.partition_entry_lba ≤ last
  pub first_usable : h.first_usable_lba ≤ last
  pub last_usable : h.last_usable_lba ≤ last

-- The sizes of its entries make sense.
pub record Sensible (h : Header) : Type 0 where
  pub entry_min : 128 ≤ h.sizeof_partition_entry
  pub entry_max : h.sizeof_partition_entry ≤ 4096
  pub entry_aligned : h.sizeof_partition_entry % 128 ≡ 0
  pub count_max : h.num_partition_entries ≤ 1024

header_crc_iff :
    (size crc : ℕ) (raw : List ℕ)
    → length raw ≡ 512
    → (header_crc size raw ≡ ok crc) ↔ ((size ≤ 512) × (efi_crc32 (take size (cleared raw)) ≡ crc))
unfolding header_crc cleared load store le_bytes
header_crc_iff size crc raw l = ground (
  arith,
  length-take 16 raw,
  length-drop 20 raw,
  length-append (take 16 raw) (0 ∷ 0 ∷ 0 ∷ 0 ∷ drop 20 raw),
)

pub check_identity_iff :
    (lba lbs : ℕ) (raw : List ℕ) (h : Header)
    → length raw ≡ 512
    → (check_identity lba lbs raw h ≡ ok tt) ↔ Identity lba lbs raw h
unfolding check_identity
check_identity_iff lba lbs raw h l =
    ground (arith, header_crc_iff h.header_size h.header_crc32 raw l)

pub check_lbas_iff : (last : ℕ) (h : Header) → (check_lbas last h ≡ ok tt) ↔ OnDisk h last
unfolding check_lbas check_lba
check_lbas_iff last h = ground arith

pub check_sizes_iff : (h : Header) → (check_sizes h ≡ ok tt) ↔ Sensible h
unfolding check_sizes
check_sizes_iff h = ground arith

-- The blocks that the entries lie between: behind a primary header and before the blocks for use, or behind these and
-- before an alternate header.
unfoldable pub table_start : Header → ℕ
table_start h = if ltb h.my_lba h.alternate_lba then h.my_lba + 1 else h.last_usable_lba

unfoldable pub table_end : Header → ℕ
table_end h = if ltb h.my_lba h.alternate_lba then h.first_usable_lba else h.my_lba

abbrev pub TableFits : ℕ → Header → Type 0
TableFits lbs h =
    Fits (table_start h) h.partition_entry_lba (table_end h) h.sizeof_partition_entry
      h.num_partition_entries lbs

check_room_iff :
    (lbs : ℕ) (h : Header)
    → 0 < lbs
    → h.my_lba + 1 < 2 ^ 64 ⊎ (h.alternate_lba ≤ h.my_lba)
    → (check_room lbs h ≡ ok tt) ↔ TableFits lbs h
unfolding check_room table_start table_end
check_room_iff lbs h pos small = ground (
  arith,
  validate_nptes_iff (h.my_lba + 1) h.partition_entry_lba h.first_usable_lba
      h.sizeof_partition_entry h.num_partition_entries lbs pos,
  validate_nptes_iff h.last_usable_lba h.partition_entry_lba h.my_lba h.sizeof_partition_entry
      h.num_partition_entries lbs pos,
)

pub room_fault :
    (lbs : ℕ) (h : Header)
    → 0 < lbs
    → (h.my_lba + 1 < 2 ^ 64) ⊎ (h.alternate_lba ≤ h.my_lba)
    → 128 ≤ h.sizeof_partition_entry
    → h.num_partition_entries ≡ 0
    → table_start h ≤ h.partition_entry_lba
    → h.partition_entry_lba ≤ table_end h
    → (table_end h - h.partition_entry_lba) * lbs * h.sizeof_partition_entry < 2 ^ 64
    → check_room lbs h ≡ fault
unfolding check_room table_start table_end
room_fault lbs h pos small large e behind before narrow = rw e (
    ground (
      arith,
      validate_nptes-no_entries (h.my_lba + 1) h.partition_entry_lba h.first_usable_lba
          h.sizeof_partition_entry 0 lbs pos large,
      validate_nptes-no_entries h.last_usable_lba h.partition_entry_lba h.my_lba
          h.sizeof_partition_entry 0 lbs pos large,
    ))

pub no_wrap :
    (h : Header) (last : ℕ)
    → OnDisk h last
    → last < 2 ^ 64
    → (h.my_lba + 1 < 2 ^ 64) ⊎ (h.alternate_lba ≤ h.my_lba)
no_wrap h last d small = ground arith

abbrev pub Checked : Device → ℕ → ℕ → List ℕ → Header → Type 0
Checked dev lba lbs raw h =
    Identity lba lbs raw h × OnDisk h dev.last_lba × Sensible h × TableFits lbs h

module _ (dev : Device) (lba lbs : ℕ) (raw : List ℕ) (h : Header) (small : dev.last_lba < 2 ^ 64)
    (l : length raw ≡ 512) where
  -- The tests of the header, one behind the other.
  pub checked : check_header dev lba lbs raw h ≡ ok tt → Checked dev lba lbs raw h
  unfolding check_header
  checked e =
      let (a, e1) = >>-returned _ _ (check_identity lba lbs raw h) e in
      let (b, e2) = >>-returned _ _ (check_lbas dev.last_lba h) e1 in
      let (c, d) = >>-returned _ _ (check_sizes h) e2 in
      let who = (check_identity_iff lba lbs raw h l).0 a in
      let where_to = (check_lbas_iff dev.last_lba h).0 b in
      let positive : 0 < lbs = omega (arith, who.size_min, who.size_block) in
      (
        who,
        where_to,
        (check_sizes_iff h).0 c,
        (check_room_iff lbs h positive (no_wrap h dev.last_lba where_to small)).0 d,
      )

  pub passes : Checked dev lba lbs raw h → check_header dev lba lbs raw h ≡ ok tt
  unfolding check_header
  passes (who, where_to, sizes, room) =
      let positive : 0 < lbs = omega (arith, who.size_min, who.size_block) in
      rw ((check_identity_iff lba lbs raw h l).1 who) (
        rw ((check_lbas_iff dev.last_lba h).1 where_to) (
          rw ((check_sizes_iff h).1 sizes)
            ((check_room_iff lbs h positive (no_wrap h dev.last_lba where_to small)).1 room)))
