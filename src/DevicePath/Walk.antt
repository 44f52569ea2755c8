-- ===== src/DevicePath/Walk.antt =====
-- src/include/efivar/efivar-dp.h: `efidp_is_valid`, `efidp_is_multiinstance` and `efidp_instance_size` on the bytes
-- of paths.
use efivar.Common.{
  ℕ, zero, suc, ◌+◌, ◌-◌, ◌*◌, ◌%◌, leb, if◌then◌else◌, ap, ◌∙◌, Bool-cases, ==_iff, inl, inr, sym,
  ap₂, ◌≤◌, ◌<◌, ◌≡◌, ◌≢◌, refl, Bool, true, false, ◌&&◌, ◌||◌, none, some, List, [], ◌∷◌, ◌++◌,
  length, ◌==◌, arith, All, append_assoc, length-append,
}
use efivar.Common.Outcome.{ok}
use efivar.Common.Memory.{load, load_le, le_value, le_bytes}
use efivar.DevicePath.{
  efidp_subtype, end_type, end_entire, end_instance, end_node, efidp_type, efidp_node_size, is_end,
}
use efivar.DevicePath.Layout.{
  Node, IsInner, encode, encode_all, length-encode, is_end-encode, is_instance-encode,
  next_node-encode, is_end-end, node_size-encode, type-encode,
}
use efivar.DevicePath.Append.{IsPlain, plain-IsInner}
use efivar.DevicePath.Valid.{
  accepts, answer, again, valid_turn, valid_from, efidp_is_valid, efidp_is_multiinstance,
  instance_turn, instance_size_from, efidp_instance_size,
}

module _ (n : Node) (h : IsInner n) (rest : List ℕ) where
  kind_fact : load_le 0 1 (encode n ++ rest) ≡ ok n.kind
  unfolding encode load_le load le_value
  kind_fact = ground arith

  sub_fact : load_le 1 1 (encode n ++ rest) ≡ ok n.sub
  unfolding encode load_le load le_value
  sub_fact = ground arith

  len_fact : load_le 2 2 (encode n ++ rest) ≡ ok (4 + length n.body)
  unfolding encode load_le load le_value le_bytes
  len_fact = ground (arith, h.fits)

accepts-entire : (sub len : ℕ) → accepts end_entire sub len ≡ false
unfolding accepts
accepts-entire sub len = refl

-- The turn at a node that is of no end type gives the answer.
turn-first :
    (n : Node) (limit : ℕ) (rest : List ℕ)
    → IsInner n
    → n.kind ≢ end_type
    → valid_turn limit (encode n ++ rest)
      ≡ ok (answer (accepts n.kind n.sub (4 + length n.body) && leb (4 + length n.body) limit))
unfolding valid_turn
turn-first n limit rest h ne = elim (Bool-cases (n.kind == end_entire)) [
  | inl e ↦
      let refused : accepts n.kind n.sub (4 + length n.body) ≡ false =
        ap (λ k. accepts k n.sub (4 + length n.body)) ((==_iff n.kind end_entire).0 e)
        ∙ accepts-entire n.sub (4 + length n.body) in
      ground (arith, kind_fact n h rest, sub_fact n h rest, len_fact n h rest, refused)
  | inr e ↦ ground (arith, kind_fact n h rest, sub_fact n h rest, len_fact n h rest, ne, e)
]

-- Nodes of the end type without data, of the subtypes given, and what follows.
abbrev pub ends : List ℕ → List ℕ → List ℕ
ends [] rest = rest
ends (s ∷ ss) rest = end_type ∷ s ∷ 4 ∷ 0 ∷ ends ss rest

turn-skipped :
    (limit s : ℕ) (rest : List ℕ)
    → 3 < limit
    → valid_turn limit (end_type ∷ s ∷ 4 ∷ 0 ∷ rest) ≡ ok (again (limit - 4) rest)
unfolding valid_turn accepts load_le load le_value
turn-skipped limit s rest lt = ground arith

turn-short : (limit : ℕ) (dp : List ℕ) → limit < 4 → valid_turn limit dp ≡ ok (answer false)
unfolding valid_turn
turn-short limit dp lt = ground arith

-- What is to be answered where `k` end nodes stand in front of a node: if the limit ends in the end nodes, whether it ends with
-- one of them, and else whether the node is accepted and lies within the limit.
unfoldable pub verdict : ℕ → ℕ → Node → Bool
verdict limit k n =
    if leb limit (4 * k)
    then limit % 4 == 0
    else accepts n.kind n.sub (4 + length n.body) && leb (4 + length n.body) (limit - 4 * k)

verdict-skipped :
    (limit k : ℕ) (n : Node) → 3 < limit → verdict (limit - 4) k n ≡ verdict limit (suc k) n
unfolding verdict
verdict-skipped limit k n lt =
    let same : limit - 4 - 4 * k ≡ limit - 4 * suc k = omega arith in
    let rest : (limit - 4) % 4 ≡ limit % 4 = omega arith in
    ap₂
      (λ a b.
        if leb (limit - 4) (4 * k)
        then a == 0
        else accepts n.kind n.sub (4 + length n.body) && leb (4 + length n.body) b)
      rest same
    ∙ ap
        (λ (c : Bool).
          if c
          then limit % 4 == 0
          else accepts n.kind n.sub (4 + length n.body)
            && leb (4 + length n.body) (limit - 4 * suc k))
        (same_test limit k lt)
  where
    same_test : (limit k : ℕ) → 3 < limit → leb (limit - 4) (4 * k) ≡ leb limit (4 * suc k)
    same_test limit k lt = ground arith

verdict-short : (limit k : ℕ) (n : Node) → 0 < limit → limit < 4 → verdict limit (suc k) n ≡ false
unfolding verdict
verdict-short limit k n pos lt = ground arith

verdict-first :
    (limit : ℕ) (n : Node)
    → 0 < limit
    → accepts n.kind n.sub (4 + length n.body) && leb (4 + length n.body) limit ≡ verdict limit 0 n
unfolding verdict
verdict-first limit n pos = ground arith

valid_from-first :
    (ss : List ℕ) (n : Node) (turns limit : ℕ) (rest : List ℕ)
    → IsInner n
    → n.kind ≢ end_type
    → length ss < turns
    → valid_from turns limit (ends ss (encode n ++ rest)) ≡ some (ok (verdict limit (length ss) n))
unfolding valid_from
valid_from-first ss n zero limit rest h ne many = absurd (omega arith)
valid_from-first ss n (suc turns) zero rest h ne many = unfold verdict in ground arith
valid_from-first [] n (suc turns) (suc limit) rest h ne many =
    rw (turn-first n (suc limit) rest h ne, valid_from)
      (ap (λ b. some (ok b)) (verdict-first (suc limit) n (omega arith)))
valid_from-first (s ∷ ss) n (suc turns) (suc limit) rest h ne many =
    elim (Bool-cases (leb 4 (suc limit))) [
      | inl e ↦
          rw (turn-skipped (suc limit) s (ends ss (encode n ++ rest)) (ground arith), valid_from)
            (valid_from-first ss n turns (suc limit - 4) rest h ne (omega (arith, many))
              ∙ ap (λ b. some (ok b)) (verdict-skipped (suc limit) (length ss) n (ground arith)))
      | inr e ↦
          rw (turn-short (suc limit) (ends (s ∷ ss) (encode n ++ rest)) (ground arith), valid_from)
            (ap (λ b. some (ok b))
              (sym (verdict-short (suc limit) (length ss) n (omega arith) (ground arith))))
    ]

-- `efidp_is_valid` of a path that starts with any number of end nodes without data, of any subtypes, and then has a node that is not
-- of the end type, whose length fits its header, looks at no node behind that one, whatever bytes follow: with more turns than there
-- are end nodes it answers, if the limit ends in the end nodes, whether it ends with one of them, and else whether the node is
-- accepted and lies within the limit.
pub efidp_is_valid-first :
    (ss : List ℕ) (n : Node) (turns limit : ℕ) (rest : List ℕ)
    → IsInner n
    → n.kind ≢ end_type
    → length ss < turns
    → efidp_is_valid turns (ends ss (encode n ++ rest)) (some limit)
      ≡ some (ok (verdict limit (length ss) n))
unfolding efidp_is_valid
efidp_is_valid-first ss n turns limit rest h ne many =
    valid_from-first ss n turns limit rest h ne many

-- So a path whose first node is of no end type, is accepted and lies within the limit needs one turn.
pub efidp_is_valid-accepted :
    (n : Node) (turns limit : ℕ) (rest : List ℕ)
    → IsInner n
    → n.kind ≢ end_type
    → accepts n.kind n.sub (4 + length n.body) ≡ true
    → 4 + length n.body ≤ limit
    → efidp_is_valid (suc turns) (encode n ++ rest) (some limit) ≡ some (ok true)
efidp_is_valid-accepted n turns limit rest h ne good le =
    efidp_is_valid-first [] n (suc turns) limit rest h ne (omega arith)
    ∙ ap (λ b. some (ok b)) (unfold verdict in ground (arith, good))

turn-empty_end :
    (limit s : ℕ) (rest : List ℕ)
    → 3 < limit
    → valid_turn limit (end_type ∷ s ∷ 0 ∷ 0 ∷ rest)
      ≡ ok (again limit (end_type ∷ s ∷ 0 ∷ 0 ∷ rest))
unfolding valid_turn accepts load_le load le_value
turn-empty_end limit s rest lt = ground arith

-- At an end node whose header has the length 0 `efidp_is_valid` runs forever, if the limit is at least the size of a
-- header.
pub efidp_is_valid-never :
    (turns limit s : ℕ) (rest : List ℕ)
    → 3 < limit
    → efidp_is_valid turns (end_type ∷ s ∷ 0 ∷ 0 ∷ rest) (some limit) ≡ none
unfolding efidp_is_valid
efidp_is_valid-never zero limit s rest lt = refl
efidp_is_valid-never (suc turns) zero s rest lt = absurd (omega arith)
efidp_is_valid-never (suc turns) (suc limit) s rest lt =
    ground (
      arith,
      turn-empty_end (suc limit) s rest lt,
      efidp_is_valid-never turns (suc limit) s rest lt,
    )

is_instance-end : (rest : List ℕ) → is_end end_instance (end_node ++ rest) ≡ ok false
unfolding is_end efidp_type efidp_subtype load_le load le_value
is_instance-end rest = ground arith

-- Whether a list of nodes has the end of an instance.
pub has_instance : List Node → Bool
has_instance [] = false
has_instance (n ∷ ns) = (n.kind == end_type && n.sub == end_instance) || has_instance ns

-- `efidp_is_multiinstance` of a path that starts with a node `n` tells whether there is an end of an instance behind
-- it, for nodes that are not the end of the whole path, whose lengths fit their headers; it finishes within one turn
-- more than there are nodes behind the first.
pub efidp_is_multiinstance-path :
    (n : Node) (ns : List Node) (turns : ℕ) (rest : List ℕ)
    → IsInner n
    → All IsInner ns
    → length ns < turns
    → efidp_is_multiinstance turns (encode n ++ (encode_all ns ++ (end_node ++ rest)))
      ≡ some (ok (has_instance ns))
unfolding efidp_is_multiinstance has_instance encode_all
efidp_is_multiinstance-path n ns zero rest h k lt = absurd (omega arith)
efidp_is_multiinstance-path n [] (suc turns) rest h k lt =
    ground (arith, next_node-encode n h (end_node ++ rest), is_end-end rest, is_instance-end rest)
efidp_is_multiinstance-path n (m ∷ ms) (suc turns) rest h k lt = ground (
  arith,
  append_assoc (encode m) (encode_all ms) (end_node ++ rest),
  next_node-encode n h (encode m ++ (encode_all ms ++ (end_node ++ rest))),
  is_instance-encode m k.0 (encode_all ms ++ (end_node ++ rest)),
  is_end-encode m k.0 (encode_all ms ++ (end_node ++ rest)),
  efidp_is_multiinstance-path m ms turns rest k.0 k.1,
)

turn-plain :
    (n : Node) (rest : List ℕ)
    → IsInner n
    → n.kind ≢ end_type
    → instance_turn (encode n ++ rest) ≡ ok (4 + length n.body, some rest)
unfolding instance_turn
turn-plain n rest h ne =
    ground (arith, node_size-encode n h rest, type-encode n h rest, next_node-encode n h rest)

turn-end : (s : ℕ) (rest : List ℕ) → instance_turn (end_type ∷ s ∷ 4 ∷ 0 ∷ rest) ≡ ok (4, none)
unfolding instance_turn efidp_node_size efidp_type load_le load le_value
turn-end s rest = ground arith

size_from-instance :
    (ns : List Node) (s turns ret : ℕ) (rest : List ℕ)
    → All IsPlain ns
    → length ns < turns
    → instance_size_from turns ret (encode_all ns ++ (end_type ∷ s ∷ 4 ∷ 0 ∷ rest))
      ≡ some (ok (ret + (length (encode_all ns) + 4)))
unfolding instance_size_from encode_all
size_from-instance ns s zero ret rest h lt = absurd (omega arith)
size_from-instance [] s (suc turns) ret rest h lt = ground (arith, turn-end s rest)
size_from-instance (n ∷ ns) s (suc turns) ret rest h lt = ground (
  arith,
  append_assoc (encode n) (encode_all ns) (end_type ∷ s ∷ 4 ∷ 0 ∷ rest),
  turn-plain n (encode_all ns ++ (end_type ∷ s ∷ 4 ∷ 0 ∷ rest)) (plain-IsInner (n ∷ ns) h).0
      h.0.not_end,
  size_from-instance ns s turns (ret + (4 + length n.body)) rest h.1,
  length-encode n,
  length-append (encode n) (encode_all ns),
)

-- `efidp_instance_size` of an instance is the number of its bytes, its end node included: for nodes that are no end
-- nodes, whose lengths fit their headers, and an end node of any subtype with a header of the length 4, whatever
-- follows; it finishes within one turn more than there are nodes.
pub efidp_instance_size-path :
    (ns : List Node) (s turns : ℕ) (rest : List ℕ)
    → All IsPlain ns
    → length ns < turns
    → efidp_instance_size turns (encode_all ns ++ (end_type ∷ s ∷ 4 ∷ 0 ∷ rest))
      ≡ some (ok (length (encode_all ns) + 4))
unfolding efidp_instance_size
efidp_instance_size-path ns s turns rest h lt =
    ground (arith, size_from-instance ns s turns 0 rest h lt)
