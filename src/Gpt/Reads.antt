-- ===== src/Gpt/Reads.antt =====
-- src/gpt.c: what is read of the disk.
use efivar.Common.{
  ℕ, zero, suc, ◌*◌, ◌^◌, ◌<◌, ◌≡◌, ◌↔◌, refl, true, false, Bool, Option, none, some, List, ◌++◌,
  length, replicate, length-append, length-take, arith,
}
use efivar.Common.Words.{u32, u64}
use efivar.Common.Outcome.{ok, unset, guard, ◌>>◌}
use efivar.Gpt.{
  Device, filled, read_lastoddsector, delivered, read_lba, alloc_read_gpt_header,
  alloc_read_gpt_entries,
}

length-replicate : (n b : ℕ) → length (replicate n b) ≡ n
length-replicate zero b = refl
length-replicate (suc n) b = omega (arith, length-replicate n b)

length-filled : (n : ℕ) (bs : List ℕ) → length (filled n bs) ≡ n
unfolding filled
length-filled n bs = omega (
  arith,
  length-take n (bs ++ replicate n 0),
  length-append bs (replicate n 0),
  length-replicate n 0,
)

length-read_lastoddsector : (n : ℕ) (r : Option (List ℕ)) → length (read_lastoddsector n r).1 ≡ n
unfolding read_lastoddsector
length-read_lastoddsector n none = length-replicate n 0
length-read_lastoddsector n (some bs) = length-filled n bs

length-delivered :
    (dev : Device) (lba n : ℕ) (r : Option (List ℕ)) → length (delivered dev lba n r).1 ≡ n
unfolding delivered
length-delivered dev lba n none = length-replicate n 0
length-delivered dev lba n (some bs) =
    ground (arith, length-filled n bs, length-read_lastoddsector n (dev.last_sector n))

pub length-read_lba : (dev : Device) (lba n : ℕ) → length (read_lba dev lba n).1 ≡ n
unfolding read_lba
length-read_lba dev lba n = ground (
  arith,
  length-replicate n 0,
  length-delivered dev lba n (dev.read_at (u64 (lba * dev.sector_size)) n),
)

allocated_iff :
    (r : Bool × List ℕ) (bs : List ℕ) → ((guard r.0 unset >> ok r.1) ≡ ok bs) ↔ (r ≡ (true, bs))
allocated_iff (true, xs) bs = ground arith
allocated_iff (false, xs) bs = ground arith

pub alloc_header_iff :
    (dev : Device) (lba : ℕ) (raw : List ℕ)
    → (alloc_read_gpt_header dev lba ≡ ok raw) ↔ (read_lba dev lba 512 ≡ (true, raw))
unfolding alloc_read_gpt_header
alloc_header_iff dev lba raw = allocated_iff (read_lba dev lba 512) raw

pub alloc_entries_iff :
    (dev : Device) (n k lba : ℕ) (bs : List ℕ)
    → 0 < n * k
    → n * k < 2 ^ 32
    → (alloc_read_gpt_entries dev n k lba ≡ ok bs) ↔ (read_lba dev lba (n * k) ≡ (true, bs))
unfolding alloc_read_gpt_entries
alloc_entries_iff dev n k lba bs pos small =
    let same : u32 (n * k) ≡ n * k = omega arith in
    rw same (ground (arith, allocated_iff (read_lba dev lba (n * k)) bs))
