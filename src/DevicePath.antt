-- ===== src/DevicePath.antt =====
-- src/include/efivar/efivar-dp.h: the walk over the nodes of a device path, and src/dp.c: the functions that copy
-- and append. A pointer into a device path is the list of the bytes of memory from it on. Addresses do not
-- wrap around, so the tests `*out < in` are left out.
pub mod Layout
pub mod Size
pub mod Append
pub mod Valid
pub mod Walk
pub mod Instances
mod Tests
use efivar.Common.{
  ℕ, zero, suc, ◌+◌, ◌-◌, Bool, true, false, Option, none, some, List, [], ◌∷◌, ◌++◌, drop, ltb,
  ◌==◌, if◌then◌else◌,
}
use efivar.Common.Outcome.{Outcome, ok, err, fault, einval, ◌>>=◌, ◌>>>=◌}
use efivar.Common.Memory.{load, load_le}

abbrev pub end_type : ℕ
end_type = 0x7f

abbrev pub end_entire : ℕ
end_entire = 0xff

abbrev pub end_instance : ℕ
end_instance = 0x01

pub efidp_type : List ℕ → Outcome ℕ
efidp_type dp = load_le 0 1 dp

pub efidp_subtype : List ℕ → Outcome ℕ
efidp_subtype dp = load_le 1 1 dp

pub efidp_node_size : List ℕ → Outcome ℕ
efidp_node_size dn = load_le 2 2 dn >>= λ size. if ltb size 4 then err einval else ok size

-- `efidp_type(dp) == EFIDP_END_TYPE && efidp_subtype(dp) == subtype`
pub is_end : ℕ → List ℕ → Outcome Bool
unfolding efidp_type efidp_subtype
is_end subtype dp = efidp_type dp >>= λ type.
    if type == end_type then (efidp_subtype dp >>= λ sub. ok (sub == subtype)) else ok false

-- `none` is the return value 0, for which there is no next node.
pub efidp_next_node : List ℕ → Outcome (Option (List ℕ))
unfolding is_end efidp_node_size
efidp_next_node dp = is_end end_entire dp >>= λ last.
    if last then ok none else (efidp_node_size dp >>= λ size. ok (some (drop size dp)))

pub efidp_next_instance : List ℕ → Outcome (List ℕ)
unfolding is_end efidp_node_size
efidp_next_instance dp = is_end end_instance dp >>= λ stop.
    if stop then (efidp_node_size dp >>= λ size. ok (drop size dp)) else err einval

-- What one turn of the loop of `efidp_size` does: the size of the node, and where it goes on, if it does.
pub size_step : List ℕ → Outcome (ℕ × Option (List ℕ))
unfolding efidp_next_node efidp_next_instance
size_step dp = efidp_node_size dp >>= λ size. elim (efidp_next_instance dp) [
  | ok next ↦ ok (size, some next)
  | err e ↦ (efidp_next_node dp >>= λ next. ok (size, next))
  | fault ↦ fault
]

-- The loops take a number of turns; `none` is a loop that is still running after that many.
pub efidp_size_from : ℕ → ℕ → List ℕ → Option (Outcome ℕ)
unfolding size_step
efidp_size_from zero ret dp = none
efidp_size_from (suc turns) ret dp = elim (size_step dp) [
  | ok (size, none) ↦ some (ok (ret + size))
  | ok (size, some next) ↦ efidp_size_from turns (ret + size) next
  | err e ↦ some (err e)
  | fault ↦ some fault
]

pub efidp_size : ℕ → List ℕ → Option (Outcome ℕ)
unfolding efidp_size_from
efidp_size turns dp = elim (is_end end_entire dp) [
  | ok true ↦ some (efidp_node_size dp)
  | ok false ↦ efidp_size_from turns 0 dp
  | err e ↦ some (err e)
  | fault ↦ some fault
]

-- One turn of `efidp_get_next_end`: `none` at an end node.
pub end_step : List ℕ → Outcome (Option (List ℕ))
unfolding efidp_type efidp_node_size
end_step dp = efidp_type dp >>= λ type.
    if type == end_type then ok none else (efidp_node_size dp >>= λ size. ok (some (drop size dp)))

pub efidp_get_next_end : ℕ → List ℕ → Option (Outcome (List ℕ))
unfolding end_step
efidp_get_next_end zero dp = none
efidp_get_next_end (suc turns) dp = elim (end_step dp) [
  | ok none ↦ some (ok dp)
  | ok (some next) ↦ efidp_get_next_end turns next
  | err e ↦ some (err e)
  | fault ↦ some fault
]

-- The loop of `efidp_append_path` and `efidp_append_node` that looks for the last node.
pub find_last : ℕ → List ℕ → Option (Outcome (List ℕ))
unfolding efidp_get_next_end is_end
find_last zero le = none
find_last (suc turns) le = elim (is_end end_entire le) [
  | ok true ↦ some (ok le)
  | ok false ↦ elim (efidp_get_next_end turns le) [
    | none ↦ none
    | some (ok next) ↦ find_last turns next
    | some (err e) ↦ some (err e)
    | some fault ↦ some fault
  ]
  | err e ↦ some (err e)
  | fault ↦ some fault
]

-- The static `end_entire`.
abbrev pub end_node : List ℕ
end_node = end_type ∷ end_entire ∷ 4 ∷ 0 ∷ []

-- `efidp_append_node` of a path and a node that are not NULL: the bytes of the new path. The sizes are below
-- 2 ^ 63, since the paths lie in memory, and allocation succeeds.
pub efidp_append_node : ℕ → List ℕ → List ℕ → Option (Outcome (List ℕ))
unfolding efidp_size find_last
efidp_append_node turns dp dn = efidp_size turns dp >>>= λ size. find_last turns dp >>>= λ le.
    efidp_size turns le >>>= λ last. some (efidp_node_size dn) >>>= λ rsz.
    some (load 0 (size - last) dp) >>>= λ left.
    some (load 0 rsz dn) >>>= λ right. some (ok (left ++ (right ++ end_node)))

-- `efidp_append_path` of two paths that are not NULL.
pub efidp_append_path : ℕ → List ℕ → List ℕ → Option (Outcome (List ℕ))
unfolding efidp_size find_last
efidp_append_path turns dp0 dp1 = efidp_size turns dp0 >>>= λ size. efidp_size turns dp1 >>>= λ rsz.
    find_last turns dp0 >>>= λ le. efidp_size turns le >>>= λ last.
    if ltb (size - last + rsz) 4
    then some (err einval)
    else (some (load 0 (size - last) dp0) >>>= λ left.
        some (load 0 rsz dp1) >>>= λ right. some (ok (left ++ right)))

-- `efidp_duplicate_path`
pub efidp_duplicate_path : ℕ → List ℕ → Option (Outcome (List ℕ))
unfolding efidp_size
efidp_duplicate_path turns dp =
    efidp_size turns dp >>>= λ size. if ltb size 4 then some (err einval) else some (load 0 size dp)
