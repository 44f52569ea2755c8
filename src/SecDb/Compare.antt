-- ===== src/SecDb/Compare.antt =====
-- src/secdb.c: the comparisons that sort lists and entries.
use Prim.Native.Nat.{Ordering}
use efivar.Common.{ℕ, zero, suc, ◌+◌, ◌-◌, ◌^◌, List, [], ◌∷◌, ◌==◌, ltb, not, if◌then◌else◌}
use efivar.Common.Words.{u32}
use efivar.Guid.{efi_guid_cmp}
use efivar.Guid.Layout.{guid_of_bytes}
use efivar.EslIter.Layout.{Signature}
use efivar.SecDb.{Sublist, type_max}

-- The sign of `a - b` of `uint32_t`, as an int.
unfoldable pub minus_sign : ℕ → ℕ → Ordering
minus_sign a b =
    let d = u32 (a + 2 ^ 32 - b) in
    if d == 0 then Ordering.eq else if ltb d (2 ^ 31) then Ordering.gt else Ordering.lt

-- The first `sz` bytes; the callers have compared as many bytes of both before.
unfoldable pub bytecmp : ℕ → List ℕ → List ℕ → Ordering
bytecmp zero a b = Ordering.eq
bytecmp (suc sz) [] b = Ordering.eq
bytecmp (suc sz) (x ∷ a) [] = Ordering.eq
bytecmp (suc sz) (x ∷ a) (y ∷ b) =
    let rest = bytecmp sz a b in
    if x == y then rest else if ltb x y then Ordering.lt else Ordering.gt

unfoldable pub secdb_entry_cmp : ℕ → Signature → Signature → Ordering
unfolding bytecmp
secdb_entry_cmp sz a b = elim (efi_guid_cmp (guid_of_bytes a.owner) (guid_of_bytes b.owner)) [
  | Ordering.eq ↦ bytecmp sz a.contents b.contents
  | Ordering.lt ↦ Ordering.lt
  | Ordering.gt ↦ Ordering.gt
]

unfoldable pub secdb_entry_cmp_descending : ℕ → Signature → Signature → Ordering
unfolding secdb_entry_cmp
secdb_entry_cmp_descending sz a b = secdb_entry_cmp sz b a

unfoldable pub secdb_cmp : Sublist → Sublist → Ordering
unfolding minus_sign
secdb_cmp a b =
    if a.algorithm == type_max
    then Ordering.lt
    else if b.algorithm == type_max
    then Ordering.gt
    else if not (a.algorithm == b.algorithm)
    then minus_sign a.algorithm b.algorithm
    else if not (a.sigsz == b.sigsz)
    then minus_sign a.sigsz b.sigsz
    else minus_sign a.listsz b.listsz

unfoldable pub secdb_cmp_descending : Sublist → Sublist → Ordering
unfolding secdb_cmp
secdb_cmp_descending a b = secdb_cmp b a
