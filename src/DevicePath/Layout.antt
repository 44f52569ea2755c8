-- ===== src/DevicePath/Layout.antt =====
-- Device paths as data, and their bytes, as src/include/efivar/efivar-dp.h lays them out: a node is a header of four
-- bytes, which holds the type, the subtype and the length of the whole node, and its body.
use efivar.Common.{
  ℕ, ◌+◌, ◌^◌, ◌<◌, ◌≡◌, ◌≢◌, ◌⊎◌, true, false, List, [], ◌∷◌, ◌++◌, length, drop, arith,
  drop-length_append, some, none, ◌==◌, ◌&&◌,
}
use efivar.Common.Outcome.{ok}
use efivar.Common.Memory.{le_bytes, le_value, load, load_le}
use efivar.DevicePath.{
  end_type, end_entire, end_instance, end_node, efidp_type, efidp_subtype, efidp_node_size, is_end,
  size_step, end_step, efidp_next_node, efidp_next_instance,
}

pub record Node : Type 0 where
  pub kind : ℕ
  pub sub : ℕ
  pub body : List ℕ

-- A node that is not the end of the whole path, with a length that the header can hold.
pub record IsInner (n : Node) : Type 0 where
  pub inner : (n.kind ≢ end_type) ⊎ (n.sub ≢ end_entire)
  pub fits : 4 + length n.body < 2 ^ 16

unfoldable pub encode : Node → List ℕ
encode n = n.kind ∷ n.sub ∷ (le_bytes 2 (4 + length n.body) ++ n.body)

unfoldable pub encode_all : List Node → List ℕ
encode_all [] = []
encode_all (n ∷ ns) = encode n ++ encode_all ns

-- A whole path: the nodes and the end.
unfoldable pub path : List Node → List ℕ
path ns = encode_all ns ++ end_node

pub length-encode : (n : Node) → length (encode n) ≡ 4 + length n.body
unfolding encode le_bytes
length-encode n = omega arith

module _ (n : Node) (h : IsInner n) (rest : List ℕ) where
  pub type-encode : efidp_type (encode n ++ rest) ≡ ok n.kind
  unfolding efidp_type encode load_le load le_value
  type-encode = ground arith

  pub subtype-encode : efidp_subtype (encode n ++ rest) ≡ ok n.sub
  unfolding efidp_subtype encode load_le load le_value
  subtype-encode = ground arith

  pub node_size-encode : efidp_node_size (encode n ++ rest) ≡ ok (4 + length n.body)
  unfolding efidp_node_size encode load_le load le_value le_bytes
  node_size-encode = ground (arith, h.fits)

  drop-encode : drop (4 + length n.body) (encode n ++ rest) ≡ rest
  drop-encode = ground (arith, length-encode n, drop-length_append (encode n) rest)

  pub is_end-encode : is_end end_entire (encode n ++ rest) ≡ ok false
  unfolding is_end
  is_end-encode = ground (arith, type-encode, subtype-encode, h.inner)

  pub is_instance-encode :
      is_end end_instance (encode n ++ rest) ≡ ok (n.kind == end_type && n.sub == end_instance)
  unfolding is_end
  is_instance-encode = ground (arith, type-encode, subtype-encode)

  pub next_node-encode : efidp_next_node (encode n ++ rest) ≡ ok (some rest)
  unfolding efidp_next_node
  next_node-encode = ground (arith, is_end-encode, node_size-encode, drop-encode)

  pub size_step-encode : size_step (encode n ++ rest) ≡ ok (4 + length n.body, some rest)
  unfolding size_step efidp_next_instance
  size_step-encode =
      ground (arith, is_instance-encode, node_size-encode, drop-encode, next_node-encode)

  -- A node that is not of the end type.
  pub end_step-encode : n.kind ≢ end_type → end_step (encode n ++ rest) ≡ ok (some rest)
  unfolding end_step
  end_step-encode ne = ground (arith, type-encode, node_size-encode, drop-encode)

-- An end node of any subtype stops the search for one.
pub end_step-end : (s : ℕ) (rest : List ℕ) → end_step (end_type ∷ s ∷ rest) ≡ ok none
unfolding end_step efidp_type load_le load le_value
end_step-end s rest = ground arith

pub is_end-end : (rest : List ℕ) → is_end end_entire (end_node ++ rest) ≡ ok true
unfolding is_end efidp_type efidp_subtype load_le load le_value
is_end-end rest = ground arith

pub node_size-end : (rest : List ℕ) → efidp_node_size (end_node ++ rest) ≡ ok 4
unfolding efidp_node_size load_le load le_value
node_size-end rest = ground arith

pub size_step-end : (rest : List ℕ) → size_step (end_node ++ rest) ≡ ok (4, none)
unfolding size_step efidp_next_node efidp_next_instance is_end efidp_type efidp_subtype
    efidp_node_size load_le load le_value
size_step-end rest = ground arith
