-- ===== src/DevicePath/Append.antt =====
-- src/dp.c: `efidp_append_node` and `efidp_append_path` on the bytes of paths.
use efivar.Common.{
  ltb, ℕ, zero, suc, ◌+◌, ◌-◌, ◌^◌, ◌≤◌, ◌<◌, ◌≡◌, ◌≢◌, inl, refl, List, [], ◌∷◌, ◌++◌, length, All,
  arith, length-append, some, append_assoc, append-nil, ◌∙◌, sym, ap, false,
}
use efivar.Common.Outcome.{ok}
use efivar.Common.Memory.{load, load-append}
use efivar.DevicePath.{
  end_type, end_entire, end_node, efidp_size, find_last, efidp_get_next_end, efidp_append_node,
  efidp_append_path, efidp_duplicate_path,
}
use efivar.DevicePath.Layout.{
  Node, IsInner, encode, encode_all, path, length-encode, is_end-end, end_step-encode, end_step-end,
  node_size-encode,
}
use efivar.DevicePath.Size.{efidp_size-path, not_last}

-- A node that is not of the end type at all, so that the path has one instance.
pub record IsPlain (n : Node) : Type 0 where
  pub not_end : n.kind ≢ end_type
  pub fits : 4 + length n.body < 2 ^ 16

pub plain-IsInner : (ns : List Node) → All IsPlain ns → All IsInner ns
plain-IsInner [] h = tt
plain-IsInner (n ∷ ns) h =
    (record { inner = inl h.0.not_end; fits = h.0.fits }, plain-IsInner ns h.1)

-- The search for an end node runs over plain nodes.
next_end-plain :
    (ns : List Node) (s turns : ℕ) (rest : List ℕ)
    → All IsPlain ns
    → length ns < turns
    → efidp_get_next_end turns (encode_all ns ++ (end_type ∷ s ∷ rest))
      ≡ some (ok (end_type ∷ s ∷ rest))
unfolding efidp_get_next_end encode_all
next_end-plain ns s zero rest h lt = absurd (omega arith)
next_end-plain [] s (suc turns) rest h lt = ground (arith, end_step-end s rest)
next_end-plain (n ∷ ns) s (suc turns) rest h lt = ground (
  arith,
  append_assoc (encode n) (encode_all ns) (end_type ∷ s ∷ rest),
  end_step-encode n (plain-IsInner (n ∷ ns) h).0 (encode_all ns ++ (end_type ∷ s ∷ rest))
      h.0.not_end,
  next_end-plain ns s turns rest h.1,
)

find_last-path :
    (ns : List Node) (turns : ℕ) (rest : List ℕ)
    → All IsPlain ns
    → length ns + 1 < turns
    → find_last turns (encode_all ns ++ (end_node ++ rest)) ≡ some (ok (end_node ++ rest))
unfolding find_last
find_last-path ns zero rest h lt = absurd (omega arith)
find_last-path ns (suc zero) rest h lt = absurd (omega arith)
find_last-path [] (suc (suc turns)) rest h lt = unfold encode_all in ground (arith, is_end-end rest)
find_last-path (n ∷ ns) (suc (suc turns)) rest h lt = ground (
  arith,
  not_last n ns rest (plain-IsInner (n ∷ ns) h).0,
  next_end-plain (n ∷ ns) end_entire (suc turns) (4 ∷ 0 ∷ rest) h (omega arith),
  is_end-end rest,
)

pub encode_all-append : (ms ns : List Node) → encode_all (ms ++ ns) ≡ encode_all ms ++ encode_all ns
unfolding encode_all
encode_all-append [] ns = refl
encode_all-append (m ∷ ms) ns =
    rw (encode_all-append ms ns) (sym (append_assoc (encode m) (encode_all ms) (encode_all ns)))

path-snoc :
    (ns : List Node) (n : Node) → encode_all ns ++ (encode n ++ end_node) ≡ path (ns ++ (n ∷ []))
unfolding path encode_all
path-snoc ns n = ground (
  arith,
  encode_all-append ns (n ∷ []),
  append-nil (encode n),
  append_assoc (encode_all ns) (encode n) end_node,
)

path-append : (ns ms : List Node) → encode_all ns ++ path ms ≡ path (ns ++ ms)
unfolding path
path-append ns ms =
    ground (arith, encode_all-append ns ms, append_assoc (encode_all ns) (encode_all ms) end_node)

length-path : (ms : List Node) → 4 ≤ length (path ms)
unfolding path
length-path ms = omega (arith, length-append (encode_all ms) end_node)

module _ (ns : List Node) (turns : ℕ) (rest : List ℕ) (h : All IsPlain ns)
    (enough : length ns + 1 < turns) where
  size_fact : efidp_size turns (path ns ++ rest) ≡ some (ok (length (path ns)))
  size_fact = efidp_size-path ns turns rest (plain-IsInner ns h) (omega arith)

  last_fact : find_last turns (path ns ++ rest) ≡ some (ok (end_node ++ rest))
  last_fact =
      unfold path in
      ap (find_last turns) (append_assoc (encode_all ns) end_node rest)
      ∙ find_last-path ns turns rest h enough

  end_fact : efidp_size turns (end_node ++ rest) ≡ some (ok 4)
  end_fact = unfold path encode_all in efidp_size-path [] turns rest tt (omega arith)

  front_fact : load 0 (length (path ns) - 4) (path ns ++ rest) ≡ ok (encode_all ns)
  unfolding path
  front_fact = ground (
    arith,
    length-append (encode_all ns) end_node,
    append_assoc (encode_all ns) end_node rest,
    load-append (encode_all ns) (end_node ++ rest),
  )

-- `efidp_append_node` of a path and a node is the path of the nodes and that one behind them, whatever follows both
-- in memory: for nodes that are no end nodes, whose lengths fit their headers, the loops finish within two turns
-- more than there are nodes.
pub efidp_append_node-path :
    (ns : List Node) (n : Node) (turns : ℕ) (rest behind : List ℕ)
    → All IsPlain ns
    → IsInner n
    → length ns + 1 < turns
    → efidp_append_node turns (path ns ++ rest) (encode n ++ behind)
      ≡ some (ok (path (ns ++ (n ∷ []))))
unfolding efidp_append_node
efidp_append_node-path ns n turns rest behind h k enough = rw (size_fact ns turns rest h enough) (
    rw (last_fact ns turns rest h enough) (
      rw (end_fact ns turns rest h enough) (
        rw (node_size-encode n k behind) (
          rw (front_fact ns turns rest h enough)
            (rw node_fact (ap (λ (bytes : List ℕ). some (ok bytes)) (path-snoc ns n)))))))
  where
    node_fact : load 0 (4 + length n.body) (encode n ++ behind) ≡ ok (encode n)
    node_fact = ground (arith, length-encode n, load-append (encode n) behind)

-- `efidp_append_path` of two paths is the path of the nodes of both, whatever follows them in memory: for a first
-- path of nodes that are no end nodes and a second one of nodes that are not the end of the whole path, whose
-- lengths fit their headers, the loops finish within two turns more than either has nodes.
pub efidp_append_path-path :
    (ns ms : List Node) (turns : ℕ) (rest behind : List ℕ)
    → All IsPlain ns
    → All IsInner ms
    → length ns + 1 < turns
    → length ms + 1 < turns
    → efidp_append_path turns (path ns ++ rest) (path ms ++ behind) ≡ some (ok (path (ns ++ ms)))
unfolding efidp_append_path
efidp_append_path-path ns ms turns rest behind h k enough more =
    rw (size_fact ns turns rest h enough) (
      rw (efidp_size-path ms turns behind k (omega arith)) (
        rw (last_fact ns turns rest h enough) (
          rw (end_fact ns turns rest h enough) (
            rw large (
              rw (front_fact ns turns rest h enough) (
                rw (load-append (path ms) behind)
                  (ap (λ (bytes : List ℕ). some (ok bytes)) (path-append ns ms))))))))
  where
    large : ltb (length (path ns) - 4 + length (path ms)) 4 ≡ false
    large = ground (arith, length-path ms)

-- `efidp_duplicate_path` of a path copies its bytes and no more, under the conditions of `efidp_size`.
pub efidp_duplicate_path-path :
    (ns : List Node) (turns : ℕ) (rest : List ℕ)
    → All IsInner ns
    → length ns < turns
    → efidp_duplicate_path turns (path ns ++ rest) ≡ some (ok (path ns))
unfolding efidp_duplicate_path
efidp_duplicate_path-path ns turns rest h lt =
    rw (efidp_size-path ns turns rest h lt) (rw large (rw (load-append (path ns) rest)))
  where
    large : ltb (length (path ns)) 4 ≡ false
    large = ground (arith, length-path ns)
