-- ===== src/Gpt/Valid.antt =====
-- src/gpt.c: what `is_gpt_valid` accepts.
use native.Mathlib.Nat.{mul-le-mul}
use efivar.Common.{
  ℕ, ◌*◌, ◌^◌, ◌≤◌, ◌<◌, ◌≡◌, ◌↔◌, refl, sym, ap, subst, true, Bool, List, length, ◌-◌, arith,
}
use efivar.Common.Outcome.{ok, fault, >>=-returned, >>-returned}
use efivar.Crc32.{efi_crc32}
use efivar.Gpt.{
  Device, read_lba, alloc_read_gpt_header, alloc_read_gpt_entries, Header, header_of, check_header,
  read_entries, Gpt, is_gpt_valid,
}
use efivar.Gpt.Reads.{length-read_lba, alloc_header_iff, alloc_entries_iff}
use efivar.Gpt.Checks.{
  Identity, OnDisk, Sensible, table_start, table_end, TableFits, check_identity_iff, check_lbas_iff,
  check_sizes_iff, no_wrap, checked, passes, room_fault,
}

-- The disk has this table at this block.
pub record IsGpt (dev : Device) (lba lbs : ℕ) (g : Gpt) : Type 0 where
  pub header : read_lba dev lba 512 ≡ (true, g.raw)
  pub identity : Identity lba lbs g.raw (header_of g.raw)
  pub on_disk : OnDisk (header_of g.raw) dev.last_lba
  pub sensible : Sensible (header_of g.raw)
  pub fits : TableFits lbs (header_of g.raw)
  pub entries :
      read_lba dev
        (header_of g.raw).partition_entry_lba
        ((header_of g.raw).num_partition_entries * (header_of g.raw).sizeof_partition_entry)
      ≡ (true, g.ptes)
  pub entries_crc : efi_crc32 g.ptes ≡ (header_of g.raw).partition_entry_array_crc32

array_size : (n k : ℕ) → 0 < n → n ≤ 1024 → 128 ≤ k → k ≤ 4096 → (0 < n * k) × (n * k < 2 ^ 32)
array_size n k a b c d =
    omega (arith, mul-le-mul b d, mul-le-mul {n₁ = 1} {m₁ = 1} {n₂ = n} {m₂ = k} a (omega arith))

module _ (dev : Device) (raw : List ℕ) (h : Header) (s : Sensible h)
    (pos : 0 < h.num_partition_entries) where
  abbrev AreEntries : List ℕ → Type 0
  AreEntries ptes =
      (read_lba dev h.partition_entry_lba (h.num_partition_entries * h.sizeof_partition_entry)
        ≡ (true, ptes))
      × (efi_crc32 ptes ≡ h.partition_entry_array_crc32)

  alloc_fact :
      (ptes : List ℕ)
      → (alloc_read_gpt_entries dev h.num_partition_entries h.sizeof_partition_entry
            h.partition_entry_lba
          ≡ ok ptes)
        ↔ (read_lba dev h.partition_entry_lba (h.num_partition_entries * h.sizeof_partition_entry)
            ≡ (true, ptes))
  alloc_fact ptes =
      let (some_byte, small) =
        array_size h.num_partition_entries h.sizeof_partition_entry pos s.count_max s.entry_min
          s.entry_max in
      alloc_entries_iff dev h.num_partition_entries h.sizeof_partition_entry h.partition_entry_lba
        ptes some_byte small

  read_entries_found : (g : Gpt) → read_entries dev raw h ≡ ok g → (g.raw ≡ raw) × AreEntries g.ptes
  unfolding read_entries
  read_entries_found g e =
      let (ptes, allocated, rest) =
        >>=-returned _ _
          (alloc_read_gpt_entries dev h.num_partition_entries h.sizeof_partition_entry
            h.partition_entry_lba)
          e in
      ground (arith, (alloc_fact ptes).0 allocated, rest)

  read_entries_given :
      (ptes : List ℕ)
      → AreEntries ptes
      → read_entries dev raw h ≡ ok (record { raw = raw; ptes = ptes })
  unfolding read_entries
  read_entries_given ptes (r, crc) = ground (arith, (alloc_fact ptes).1 r, crc)

module _ (dev : Device) (lba lbs : ℕ) (small : dev.last_lba < 2 ^ 64) where
  header_length : (raw : List ℕ) → read_lba dev lba 512 ≡ (true, raw) → length raw ≡ 512
  header_length raw e =
      omega (arith, ap (λ (r : Bool × List ℕ). length r.1) e, length-read_lba dev lba 512)

  found : (g : Gpt) → is_gpt_valid dev lba lbs ≡ ok g → IsGpt dev lba lbs g
  unfolding is_gpt_valid
  found g e =
      let (raw, allocated, rest) = >>=-returned _ _ (alloc_read_gpt_header dev lba) e in
      let read_ok = (alloc_header_iff dev lba raw).0 allocated in
      let (tested, entries) = >>-returned _ _ (check_header dev lba lbs raw (header_of raw)) rest in
      let (who, places, sizes, room) =
        checked dev lba lbs raw (header_of raw) small (header_length raw read_ok) tested in
      let (same, array) =
        read_entries_found dev raw (header_of raw) sizes room.some_entry g entries in
      subst (λ (r : List ℕ). IsGpt dev lba lbs (record { raw = r; ptes = g.ptes })) (sym same)
        (record {
          header = read_ok;
          identity = who;
          on_disk = places;
          sensible = sizes;
          fits = room;
          entries = array.0;
          entries_crc = array.1;
        })

  given : (g : Gpt) → IsGpt dev lba lbs g → is_gpt_valid dev lba lbs ≡ ok g
  unfolding is_gpt_valid
  given g h = rw ((alloc_header_iff dev lba g.raw).1 h.header) (
      rw
        (passes dev lba lbs g.raw (header_of g.raw) small (header_length g.raw h.header)
          (h.identity, h.on_disk, h.sensible, h.fits))
        (read_entries_given dev g.raw (header_of g.raw) h.sensible h.fits.some_entry g.ptes
          (h.entries, h.entries_crc)))

  -- On a device whose last block has a number below 2^64, `is_gpt_valid` accepts exactly the tables whose header, read from
  -- the block, has the magic number, a size of at least 92 bytes that is neither more than a block nor more than the
  -- 512 bytes read, its CRC, and the block as its own or its alternate one; names blocks of the disk only; has at most
  -- 1024 entries of 128 to 4096 bytes, a multiple of 128, and at least one of them; whose entries lie behind a primary
  -- header and before the first usable block, or behind the last usable block and before an alternate header, their
  -- space times the size of an entry below 2^64; and whose entries, read whole, have the CRC that the header names.
  pub is_gpt_valid_iff : (g : Gpt) → (is_gpt_valid dev lba lbs ≡ ok g) ↔ IsGpt dev lba lbs g
  is_gpt_valid_iff g = (found g, given g)

  -- A header that passes all tests before `validate_nptes`, has no entries, and names a place for them that lies between
  -- the blocks, its space times the size of an entry below 2^64, makes `is_gpt_valid` divide by zero, on a device whose
  -- last block has a number below 2^64.
  pub is_gpt_valid-no_entries :
      (raw : List ℕ)
      → read_lba dev lba 512 ≡ (true, raw)
      → Identity lba lbs raw (header_of raw)
      → OnDisk (header_of raw) dev.last_lba
      → Sensible (header_of raw)
      → (header_of raw).num_partition_entries ≡ 0
      → table_start (header_of raw) ≤ (header_of raw).partition_entry_lba
      → (header_of raw).partition_entry_lba ≤ table_end (header_of raw)
      → (table_end (header_of raw) - (header_of raw).partition_entry_lba)
          * lbs
          * (header_of raw).sizeof_partition_entry
        < 2 ^ 64
      → is_gpt_valid dev lba lbs ≡ fault
  unfolding is_gpt_valid check_header
  is_gpt_valid-no_entries raw present who places sizes none_there behind before narrow =
      let h = header_of raw in
      let positive : 0 < lbs = omega (arith, who.size_min, who.size_block) in
      rw ((alloc_header_iff dev lba raw).1 present) (
        rw ((check_identity_iff lba lbs raw h (header_length raw present)).1 who) (
          rw ((check_lbas_iff dev.last_lba h).1 places) (
            rw ((check_sizes_iff h).1 sizes) (
              rw
                (room_fault lbs h positive (no_wrap h dev.last_lba places small) sizes.entry_min
                  none_there behind before narrow)
                refl))))
