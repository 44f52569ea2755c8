-- ===== src/Gpt/Find.antt =====
-- src/gpt.c: the table that `find_valid_gpt` takes, and the entry that `gpt_disk_get_partition_info` reads of it.
use native.Mathlib.Nat.{mul-le-mul}
use efivar.Common.{
  ℕ, ◌+◌, ◌-◌, ◌*◌, ◌^◌, ◌≤◌, ◌<◌, ◌≡◌, ◌≢◌, ◌⊎◌, Bool, true, ◌||◌, none, some, List, arith, refl,
  false, inl, inr, Option, if◌then◌else◌, length, Bool-cases, drop-drop, take-drop-take, ap, ltb,
  leb, take, drop, ◌&&◌,
}
use efivar.Common.Words.{u64}
use efivar.Common.Outcome.{Outcome, ok, err, fault, einval, Outcome-cases, >>=-returned}
use efivar.Common.Memory.{load, load_le}
use efivar.Guid.Layout.{guid_of_bytes}
use efivar.Gpt.{Device, read_lba, field, header_of, Gpt, is_gpt_valid}
use efivar.Gpt.Valid.{IsGpt, is_gpt_valid_iff}
use efivar.Gpt.Reads.{length-read_lba}
use efivar.Gpt.Disk.{
  is_pmbr_valid, attempt, or_last, find_alternate, choose, find_valid_gpt, Partition,
  read_partition, gpt_disk_get_partition_info,
}

-- The first table, or else the second.
unfoldable pub prefer : Outcome Gpt → Outcome Gpt → Outcome (Option Gpt)
prefer (ok g) r = ok (some g)
prefer (err e) (ok g) = ok (some g)
prefer (err e) (err f) = ok none
prefer (err e) fault = fault
prefer fault r = fault

attempt-total : (o : Outcome Gpt) → o ≢ fault → (a : Option Gpt) × (attempt o ≡ ok a)
attempt-total (ok g) ne = (some g, refl)
attempt-total (err e) ne = (none, refl)
attempt-total fault ne = absurd (ne refl)

attempt-some : (o : Outcome Gpt) {g : Gpt} → attempt o ≡ ok (some g) → o ≡ ok g
attempt-some (ok h) e = cc
attempt-some (err x) e = cc
attempt-some fault e = cc

if_some :
    (b : Bool) (c : Option Gpt) (g : Gpt)
    → ◌≡◌ {A = Outcome (Option Gpt)} (ok (if b then c else none)) (ok (some g))
    → c ≡ some g
if_some true c g e = cc
if_some false c g e = cc

module _ (dev : Device) (lbs : ℕ) where
  or_last-total :
      (p : Option Gpt)
      → is_gpt_valid dev dev.last_lba lbs ≢ fault
      → (a : Option Gpt) × (or_last dev lbs p ≡ ok a)
  unfolding or_last
  or_last-total none defined = attempt-total (is_gpt_valid dev dev.last_lba lbs) defined
  or_last-total (some p) defined = (some p, refl)

  module _ (last_defined : is_gpt_valid dev dev.last_lba lbs ≢ fault) where
    alternate-total :
        (p : Gpt)
        → is_gpt_valid dev (header_of p.raw).alternate_lba lbs ≢ fault
        → (a : Option Gpt) × (find_alternate dev lbs (some p) ≡ ok a)
    unfolding find_alternate
    alternate-total p defined =
        let (r, e) = attempt-total (is_gpt_valid dev (header_of p.raw).alternate_lba lbs) defined in
        rw e (or_last-total r last_defined)

    pub find_valid_gpt-prefer :
        (ignore : Bool)
        → is_gpt_valid dev 1 lbs ≢ fault
        → ((g : Gpt)
            → is_gpt_valid dev 1 lbs ≡ ok g
            → is_gpt_valid dev (header_of g.raw).alternate_lba lbs ≢ fault)
        → find_valid_gpt dev ignore lbs ≡ (
            if is_pmbr_valid (read_lba dev 0 512).1 || ignore
            then prefer (is_gpt_valid dev 1 lbs) (is_gpt_valid dev dev.last_lba lbs)
            else ok none)
    unfolding find_valid_gpt prefer
    find_valid_gpt-prefer ignore defined named_defined =
        elim (Outcome-cases (is_gpt_valid dev 1 lbs)) [
          | inl (g, e) ↦
              let (a, found) = alternate-total g (named_defined g e) in
              rw e (unfold choose in ground (arith, found))
          | inr (inl (x, e)) ↦
              rw e (unfold choose find_alternate or_last in ground (arith, last_defined))
          | inr (inr e) ↦ absurd (defined e)
        ]

  abbrev IsFound : Gpt → Type 0
  IsFound g = (lba : ℕ) × (is_gpt_valid dev lba lbs ≡ ok g)

  or_last-valid :
      (o : Outcome Gpt) (r : Option Gpt) (g : Gpt)
      → attempt o ≡ ok r
      → or_last dev lbs r ≡ ok (some g)
      → (o ≡ ok g) ⊎ (is_gpt_valid dev dev.last_lba lbs ≡ ok g)
  unfolding or_last
  or_last-valid o none g p e = inr (attempt-some (is_gpt_valid dev dev.last_lba lbs) e)
  or_last-valid o (some h) g p e = inl (attempt-some o (ground (arith, p, e)))

  alternate_valid : (p : Option Gpt) (g : Gpt) → find_alternate dev lbs p ≡ ok (some g) → IsFound g
  unfolding find_alternate
  alternate_valid none g e =
      (dev.last_lba, attempt-some (is_gpt_valid dev dev.last_lba lbs) (unfold or_last in e))
  alternate_valid (some p) g e =
      let named = (header_of p.raw).alternate_lba in
      let (r, first, rest) = >>=-returned _ _ (attempt (is_gpt_valid dev named lbs)) e in
      elim (or_last-valid (is_gpt_valid dev named lbs) r g first rest) [
        | inl h ↦ (named, h)
        | inr h ↦ (dev.last_lba, h)
      ]

  choose_valid :
      (p a : Option Gpt) (g : Gpt)
      → attempt (is_gpt_valid dev 1 lbs) ≡ ok p
      → find_alternate dev lbs p ≡ ok a
      → choose p a ≡ some g
      → IsFound g
  unfolding choose
  choose_valid (some p) a g e f c = (1, attempt-some (is_gpt_valid dev 1 lbs) (ground (arith, c)))
  choose_valid none (some a) g e f c = alternate_valid none g (ground (arith, c, f))
  choose_valid none none g e f c = cc

  -- The table that `find_valid_gpt` takes is valid at some block.
  pub find_valid_gpt-valid :
      (ignore : Bool) (g : Gpt) → find_valid_gpt dev ignore lbs ≡ ok (some g) → IsFound g
  unfolding find_valid_gpt
  find_valid_gpt-valid ignore g e =
      let (p, primary, e1) = >>=-returned _ _ (attempt (is_gpt_valid dev 1 lbs)) e in
      let (a, alternate, e2) = >>=-returned _ _ (find_alternate dev lbs p) e1 in
      choose_valid p a g primary alternate
        (if_some (is_pmbr_valid (read_lba dev 0 512).1 || ignore) (choose p a) g e2)

-- The bytes of the `gpt_entry` with the number `num`, and what they say of the partition.
unfoldable pub entry_at : ℕ → List ℕ → List ℕ
entry_at num ptes = take 128 (drop (128 * (num - 1)) ptes)

unfoldable pub partition_of : List ℕ → Partition
partition_of entry = record {
  start = field 32 8 entry;
  size = u64 (field 40 8 entry + 2 ^ 64 - field 32 8 entry + 1);
  signature = guid_of_bytes (take 16 (drop 16 entry));
  mbr_type = 2;
  signature_type = 2;
}

abbrev in_range : ℕ → ℕ → Bool
in_range num n = ltb 0 num && leb num n

in_range-true : (num n : ℕ) → in_range num n ≡ true → (0 < num) × (num ≤ n)
in_range-true num n e = ground arith

module _ (dev : Device) (num lbs : ℕ) (ignore : Bool) (g : Gpt) (small : dev.last_lba < 2 ^ 64)
    (gpt : find_valid_gpt dev ignore lbs ≡ ok (some g)) where
  table : (lba : ℕ) × IsGpt dev lba lbs g
  table =
      let (lba, e) = find_valid_gpt-valid dev lbs ignore g gpt in
      (lba, (is_gpt_valid_iff dev lba lbs small g).0 e)

  -- Every entry that the header counts lies in the array, at 128 bytes for each before it.
  entry_inside :
      0 < num
      → num ≤ (header_of g.raw).num_partition_entries
      → 128 * (num - 1) + 128 ≤ length g.ptes
  entry_inside pos le =
      let (lba, t) = table in
      let size =
        (header_of g.raw).num_partition_entries * (header_of g.raw).sizeof_partition_entry in
      omega (
        arith,
        ap (λ (r : Bool × List ℕ). length r.1) t.entries,
        length-read_lba dev (header_of g.raw).partition_entry_lba size,
        mul-le-mul {n₁ = num} {m₁ = 128} le t.sensible.entry_min,
      )

  load_entry :
      (a w : ℕ)
      → a + w ≤ 128
      → 128 * (num - 1) + 128 ≤ length g.ptes
      → load (128 * (num - 1) + a) w g.ptes ≡ ok (take w (drop a (entry_at num g.ptes)))
  unfolding load entry_at
  load_entry a w h inside = ground (
    arith,
    take-drop-take w a 128 (drop (128 * (num - 1)) g.ptes) h,
    drop-drop a (128 * (num - 1)) g.ptes,
  )

  -- If `find_valid_gpt` finds a table on a device whose last block has a number below 2^64,
  -- `gpt_disk_get_partition_info` reads nothing outside of its array of entries: for a partition that the header counts,
  -- from 1 on, it returns what the 128 bytes at 128 for each partition before it say, and for any other number it fails
  -- with EINVAL.
  pub gpt_disk_get_partition_info-entry : gpt_disk_get_partition_info dev num ignore lbs ≡ (
      if ltb 0 num && leb num (header_of g.raw).num_partition_entries
      then ok (some (partition_of (entry_at num g.ptes)))
      else err einval)
  unfolding gpt_disk_get_partition_info read_partition load_le partition_of field
  gpt_disk_get_partition_info-entry =
      rw gpt (elim (Bool-cases (in_range num (header_of g.raw).num_partition_entries)) [
        | inl e ↦
            let (pos, le) = in_range-true num (header_of g.raw).num_partition_entries e in
            let inside = entry_inside pos le in
            rw e (
              rw (load_entry 32 8 (omega arith) inside) (
                rw (load_entry 40 8 (omega arith) inside)
                  (rw (load_entry 16 16 (omega arith) inside) refl)))
        | inr e ↦ rw e refl
      ])
