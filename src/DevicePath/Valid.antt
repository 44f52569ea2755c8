-- ===== src/DevicePath/Valid.antt =====
-- src/include/efivar/efivar-dp.h: `efidp_is_valid`, `efidp_is_multiinstance` and `efidp_instance_size`.
use efivar.Common.{
  ℕ, zero, suc, ◌+◌, ◌-◌, ◌^◌, Bool, true, false, not, ◌&&◌, ◌||◌, Option, none, some, List, drop,
  ltb, leb, ◌==◌, if◌then◌else◌,
}
use efivar.Common.Outcome.{Outcome, ok, err, fault, ◌>>=◌}
use efivar.Common.Memory.{load_le}
use efivar.DevicePath.{
  end_type, end_entire, end_instance, efidp_type, efidp_node_size, efidp_next_node, is_end,
}

-- The `switch` over the type: whether the subtype and the length are accepted.
unfoldable pub accepts : ℕ → ℕ → ℕ → Bool
accepts type sub len =
    if type == 1
    then sub == 4 || leb len 1024
    else if type == 2
    then leb len 1024
    else if type == 3
    then sub == 0x0a || leb len 1024
    else if type == 4
    then sub == 3 || leb len 1024
    else if type == 5
    then true
    else if type == end_type
    then leb len 4
    else false

-- One turn of the loop of `efidp_is_valid` with `limit` above 0: an answer, or the limit and the node to go on with.
pub data Turn : Type 0 where
  answer : Bool → Turn
  again : ℕ → List ℕ → Turn

unfoldable pub valid_turn : ℕ → List ℕ → Outcome Turn
unfolding accepts
valid_turn limit dp =
    if ltb limit 4
    then ok (answer false)
    else (load_le 0 1 dp >>= λ type. load_le 1 1 dp >>= λ sub. load_le 2 2 dp >>= λ len.
        if not (accepts type sub len)
        then ok (answer false)
        else if ltb limit len
        then ok (answer false)
        else if not (type == end_type) && not (type == end_entire)
        then ok (answer true)
        else ok (again (limit - len) (drop len dp)))

unfoldable pub valid_from : ℕ → ℕ → List ℕ → Option (Outcome Bool)
unfolding valid_turn
valid_from zero limit dp = none
valid_from (suc turns) zero dp = some (ok true)
valid_from (suc turns) (suc more) dp = elim (valid_turn (suc more) dp) [
  | ok (answer b) ↦ some (ok b)
  | ok (again limit next) ↦ valid_from turns limit next
  | err e ↦ some (err e)
  | fault ↦ some fault
]

-- `efidp_is_valid`; a negative limit, here `none`, is INT_MAX.
unfoldable pub efidp_is_valid : ℕ → List ℕ → Option ℕ → Option (Outcome Bool)
unfolding valid_from
efidp_is_valid turns dp none = valid_from turns (2 ^ 31 - 1) dp
efidp_is_valid turns dp (some limit) = valid_from turns limit dp

-- One turn of `efidp_is_multiinstance`: the answer, or the node to go on with.
unfoldable pub multi_turn : List ℕ → Outcome (Bool × Option (List ℕ))
multi_turn dn = efidp_next_node dn >>= λ next. elim next [
  | none ↦ ok (false, none)
  | some dp ↦
      (is_end end_instance dp >>= λ stop.
      if stop
      then ok (true, none)
      else (is_end end_entire dp >>= λ last.
          if last then ok (false, none) else ok (false, some dp)))
]

unfoldable pub efidp_is_multiinstance : ℕ → List ℕ → Option (Outcome Bool)
unfolding multi_turn
efidp_is_multiinstance zero dn = none
efidp_is_multiinstance (suc turns) dn = elim (multi_turn dn) [
  | ok (b, none) ↦ some (ok b)
  | ok (b, some next) ↦ efidp_is_multiinstance turns next
  | err e ↦ some (err e)
  | fault ↦ some fault
]

-- One turn of `efidp_instance_size`: the size of the node, and the node to go on with. Without a next node the code
-- would follow a NULL pointer.
unfoldable pub instance_turn : List ℕ → Outcome (ℕ × Option (List ℕ))
instance_turn dpi = efidp_node_size dpi >>= λ size. efidp_type dpi >>= λ type.
    if type == end_type
    then ok (size, none)
    else (efidp_next_node dpi >>= λ next. elim next [ none ↦ fault | some dp ↦ ok (size, some dp) ])

unfoldable pub instance_size_from : ℕ → ℕ → List ℕ → Option (Outcome ℕ)
unfolding instance_turn
instance_size_from zero ret dpi = none
instance_size_from (suc turns) ret dpi = elim (instance_turn dpi) [
  | ok (size, none) ↦ some (ok (ret + size))
  | ok (size, some next) ↦ instance_size_from turns (ret + size) next
  | err e ↦ some (err e)
  | fault ↦ some fault
]

unfoldable pub efidp_instance_size : ℕ → List ℕ → Option (Outcome ℕ)
unfolding instance_size_from
efidp_instance_size turns dpi = instance_size_from turns 0 dpi
