-- ===== src/DevicePath/Size.antt =====
-- src/include/efivar/efivar-dp.h: `efidp_size` on the bytes of a path.
use efivar.Common.{
  ℕ, zero, suc, ◌+◌, ◌<◌, ◌≡◌, List, [], ◌∷◌, ◌++◌, length, All, arith, length-append, some,
  append_assoc, ◌∙◌, false, ap,
}
use efivar.Common.Outcome.{ok}
use efivar.DevicePath.{end_entire, end_node, efidp_size, efidp_size_from, is_end}
use efivar.DevicePath.Layout.{
  Node, IsInner, encode, encode_all, path, length-encode, size_step-encode, size_step-end,
  is_end-encode, is_end-end, node_size-end,
}

size_from-path :
    (ns : List Node) (turns ret : ℕ) (rest : List ℕ)
    → All IsInner ns
    → length ns < turns
    → efidp_size_from turns ret (encode_all ns ++ (end_node ++ rest))
      ≡ some (ok (ret + length (path ns)))
unfolding efidp_size_from encode_all path
size_from-path ns zero ret rest h lt = absurd (omega arith)
size_from-path [] (suc turns) ret rest h lt = ground (arith, size_step-end rest)
size_from-path (n ∷ ns) (suc turns) ret rest h lt = ground (
  arith,
  append_assoc (encode n) (encode_all ns) (end_node ++ rest),
  size_step-encode n h.0 (encode_all ns ++ (end_node ++ rest)),
  size_from-path ns turns (ret + (4 + length n.body)) rest h.1,
  length-encode n,
  length-append (encode n) (encode_all ns),
  length-append (encode_all ns) end_node,
  length-append (encode n ++ encode_all ns) end_node,
)

pub not_last :
    (n : Node) (ns : List Node) (rest : List ℕ)
    → IsInner n
    → is_end end_entire (encode_all (n ∷ ns) ++ (end_node ++ rest)) ≡ ok false
unfolding encode_all
not_last n ns rest h = ground (
  arith,
  append_assoc (encode n) (encode_all ns) (end_node ++ rest),
  is_end-encode n h (encode_all ns ++ (end_node ++ rest)),
)

size-path :
    (ns : List Node) (turns : ℕ) (rest : List ℕ)
    → All IsInner ns
    → length ns < turns
    → efidp_size turns (encode_all ns ++ (end_node ++ rest)) ≡ some (ok (length (path ns)))
unfolding efidp_size path encode_all
size-path [] turns rest h lt = ground (arith, is_end-end rest, node_size-end rest)
size-path (n ∷ ns) turns rest h lt =
    ground (arith, not_last n ns rest h.0, size_from-path (n ∷ ns) turns 0 rest h lt)

-- `efidp_size` of a path is the number of its bytes, its instances and end node included, whatever follows it in
-- memory: for nodes that are not the end of the whole path, whose lengths fit their headers, the loop finishes
-- within one turn more than there are nodes.
pub efidp_size-path :
    (ns : List Node) (turns : ℕ) (rest : List ℕ)
    → All IsInner ns
    → length ns < turns
    → efidp_size turns (path ns ++ rest) ≡ some (ok (length (path ns)))
unfolding path
efidp_size-path ns turns rest h lt =
    ap (efidp_size turns) (append_assoc (encode_all ns) end_node rest)
    ∙ size-path ns turns rest h lt
