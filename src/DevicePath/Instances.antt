-- ===== src/DevicePath/Instances.antt =====
-- src/dp.c: `efidp_append_node` on a path of several instances.
use efivar.Common.{
  ◌+◌, ◌≤◌, ◌<◌, All-append, length, ◌∙◌, ap, ◌⊎◌, inl, inr, ℕ, zero, suc, ◌≡◌, ◌⊎◌, inl, inr, refl,
  List, [], ◌∷◌, ◌++◌, All, arith, some, none, append_assoc, false,
}
use efivar.Common.Outcome.{ok}
use efivar.Common.Memory.{le_bytes, load_le, load, le_value}
use efivar.DevicePath.{
  efidp_size_from, efidp_size, efidp_append_node, end_node, end_type, end_entire, end_instance,
  efidp_type, efidp_subtype, is_end, find_last, efidp_get_next_end,
}
use efivar.DevicePath.Layout.{
  size_step-encode, path, Node, IsInner, encode, encode_all, is_end-encode, end_step-encode,
  end_step-end,
}
use efivar.DevicePath.Size.{efidp_size-path}
use efivar.DevicePath.Append.{encode_all-append, IsPlain, plain-IsInner}

-- The header between two instances of a path, without its length.
instance_end : (rest : List ℕ) → is_end end_entire (end_type ∷ end_instance ∷ rest) ≡ ok false
unfolding is_end efidp_type efidp_subtype load_le load le_value
instance_end rest = ground arith

-- The loop stays at the end of an instance.
find_last-instance :
    (turns : ℕ) (rest : List ℕ) → find_last turns (end_type ∷ end_instance ∷ rest) ≡ none
unfolding find_last efidp_get_next_end
find_last-instance zero rest = refl
find_last-instance (suc zero) rest = ground (arith, instance_end rest)
find_last-instance (suc (suc turns)) rest =
    ground (
      arith,
      instance_end rest,
      end_step-end end_instance rest,
      find_last-instance (suc turns) rest,
    )

next_end-any :
    (ns : List Node) (s turns : ℕ) (rest : List ℕ)
    → All IsPlain ns
    → (efidp_get_next_end turns (encode_all ns ++ (end_type ∷ s ∷ rest)) ≡ none)
      ⊎ (efidp_get_next_end turns (encode_all ns ++ (end_type ∷ s ∷ rest))
          ≡ some (ok (end_type ∷ s ∷ rest)))
unfolding efidp_get_next_end encode_all
next_end-any ns s zero rest h = inl refl
next_end-any [] s (suc turns) rest h = inr (ground (arith, end_step-end s rest))
next_end-any (n ∷ ns) s (suc turns) rest h = ground (
  arith,
  append_assoc (encode n) (encode_all ns) (end_type ∷ s ∷ rest),
  end_step-encode n (plain-IsInner (n ∷ ns) h).0 (encode_all ns ++ (end_type ∷ s ∷ rest))
      h.0.not_end,
  next_end-any ns s turns rest h.1,
)

front_not_last :
    (n : Node) (ns : List Node) (rest : List ℕ)
    → IsInner n
    → is_end end_entire (encode_all (n ∷ ns) ++ rest) ≡ ok false
unfolding encode_all
front_not_last n ns rest h =
    ground (
      arith,
      append_assoc (encode n) (encode_all ns) rest,
      is_end-encode n h (encode_all ns ++ rest),
    )

find_last-never :
    (ns : List Node) (turns : ℕ) (rest : List ℕ)
    → All IsPlain ns
    → find_last turns (encode_all ns ++ (end_type ∷ end_instance ∷ rest)) ≡ none
unfolding find_last
find_last-never ns zero rest h = refl
find_last-never [] (suc turns) rest h = unfold encode_all in find_last-instance (suc turns) rest
find_last-never (n ∷ ns) (suc turns) rest h = ground (
  arith,
  front_not_last n ns (end_type ∷ end_instance ∷ rest) (plain-IsInner (n ∷ ns) h).0,
  next_end-any (n ∷ ns) end_instance turns rest h,
  find_last-instance turns rest,
)

-- Too few turns for `efidp_size`.
size_from-short :
    (ns : List Node) (turns ret : ℕ) (rest : List ℕ)
    → All IsInner ns
    → turns ≤ length ns
    → efidp_size_from turns ret (encode_all ns ++ rest) ≡ none
unfolding efidp_size_from encode_all
size_from-short ns zero ret rest h le = refl
size_from-short [] (suc turns) ret rest h le = absurd (omega arith)
size_from-short (n ∷ ns) (suc turns) ret rest h le = ground (
  arith,
  append_assoc (encode n) (encode_all ns) rest,
  size_step-encode n h.0 (encode_all ns ++ rest),
  size_from-short ns turns (ret + (4 + length n.body)) rest h.1,
)

size-short :
    (n : Node) (ns : List Node) (turns : ℕ) (rest : List ℕ)
    → All IsInner (n ∷ ns)
    → turns ≤ length (n ∷ ns)
    → efidp_size turns (encode_all (n ∷ ns) ++ rest) ≡ none
unfolding efidp_size
size-short n ns turns rest h le =
    ground (arith, front_not_last n ns rest h.0, size_from-short (n ∷ ns) turns 0 rest h)

-- With a path whose size is known or is still being computed, the search decides.
never_ends :
    (turns : ℕ) (dp dn : List ℕ) (size : ℕ)
    → (efidp_size turns dp ≡ none) ⊎ (efidp_size turns dp ≡ some (ok size))
    → find_last turns dp ≡ none
    → efidp_append_node turns dp dn ≡ none
unfolding efidp_append_node
never_ends turns dp dn size (inl p) q = rw p
never_ends turns dp dn size (inr p) q = rw p (rw q)

-- The node between two instances of a path.
abbrev pub instance_node : Node
instance_node = record { kind = end_type; sub = end_instance; body = [] }

size_any :
    (n : Node) (ns : List Node) (turns : ℕ) (rest : List ℕ)
    → All IsInner (n ∷ ns)
    → (efidp_size turns (path (n ∷ ns) ++ rest) ≡ none)
      ⊎ (efidp_size turns (path (n ∷ ns) ++ rest) ≡ some (ok (length (path (n ∷ ns)))))
size_any n ns turns rest h = elim (le-or-lt turns (length (n ∷ ns))) [
  | inl le ↦ inl (
      unfold path in
      ap (efidp_size turns) (append_assoc (encode_all (n ∷ ns)) end_node rest)
      ∙ size-short n ns turns (end_node ++ rest) h le)
  | inr lt ↦ inr (efidp_size-path (n ∷ ns) turns rest h lt)
]
  where
    le-or-lt : (a b : ℕ) → (a ≤ b) ⊎ (b < a)
    le-or-lt a b = omega arith

pub instance-IsInner : IsInner instance_node
instance-IsInner = record { inner = inr (omega arith); fits = omega arith }

instances-IsInner :
    (ns ms : List Node) → All IsPlain ns → All IsInner ms → All IsInner (ns ++ (instance_node ∷ ms))
instances-IsInner ns ms h k =
    All-append IsInner ns (instance_node ∷ ms) (plain-IsInner ns h) (instance-IsInner, k)

size_any_instances :
    (ns ms : List Node) (turns : ℕ) (rest : List ℕ)
    → All IsPlain ns
    → All IsInner ms
    → (efidp_size turns (path (ns ++ (instance_node ∷ ms)) ++ rest) ≡ none)
      ⊎ (efidp_size turns (path (ns ++ (instance_node ∷ ms)) ++ rest)
          ≡ some (ok (length (path (ns ++ (instance_node ∷ ms))))))
size_any_instances [] ms turns rest h k =
    size_any instance_node ms turns rest (instances-IsInner [] ms h k)
size_any_instances (n ∷ ns) ms turns rest h k =
    size_any n (ns ++ (instance_node ∷ ms)) turns rest (instances-IsInner (n ∷ ns) ms h k)

behind_instance : List Node → List ℕ → List ℕ
behind_instance ms rest = 4 ∷ 0 ∷ (encode_all ms ++ (end_node ++ rest))

instance_bytes :
    (ms : List Node) (r : List ℕ)
    → encode_all (instance_node ∷ ms) ++ r ≡ end_type ∷ end_instance ∷ 4 ∷ 0 ∷ (encode_all ms ++ r)
unfolding encode_all encode le_bytes
instance_bytes ms r = refl

instances_shape :
    (ns ms : List Node) (rest : List ℕ)
    → path (ns ++ (instance_node ∷ ms)) ++ rest
      ≡ encode_all ns ++ (end_type ∷ end_instance ∷ behind_instance ms rest)
unfolding path behind_instance
instances_shape ns ms rest = ground (
  arith,
  encode_all-append ns (instance_node ∷ ms),
  append_assoc (encode_all ns ++ encode_all (instance_node ∷ ms)) end_node rest,
  append_assoc (encode_all ns) (encode_all (instance_node ∷ ms)) (end_node ++ rest),
  instance_bytes ms (end_node ++ rest),
)

-- On a path of more than one instance `efidp_append_node` runs forever: after any number of turns it is still
-- looking for the last node, since `efidp_get_next_end` returns the end of an instance itself. The nodes before the
-- first end of an instance are no end nodes, those behind are not the end of the whole path, and their lengths fit
-- their headers.
pub efidp_append_node-never :
    (ns ms : List Node) (turns : ℕ) (rest dn : List ℕ)
    → All IsPlain ns
    → All IsInner ms
    → efidp_append_node turns (path (ns ++ (instance_node ∷ ms)) ++ rest) dn ≡ none
efidp_append_node-never ns ms turns rest dn h k =
    never_ends turns (path (ns ++ (instance_node ∷ ms)) ++ rest) dn
      (length (path (ns ++ (instance_node ∷ ms)))) (size_any_instances ns ms turns rest h k)
      (ap (find_last turns) (instances_shape ns ms rest)
        ∙ find_last-never ns turns (behind_instance ms rest) h)
