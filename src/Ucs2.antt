-- ===== src/Ucs2.antt =====
-- src/ucs2.h: lengths of UCS-2 and UTF-8 strings, and the conversions between them.
-- A string is the list of the units of memory from its address on, NUL and what follows included: bytes
-- for UTF-8, 16-bit units for UCS-2. A read past the end of the list is a fault. A limit is `none` where
-- the code passes a negative one.
pub mod Encode
pub mod Lengths
pub mod RoundTrip
pub mod Ascii
mod Tests
use efivar.Common.{
  ℕ, zero, suc, ◌+◌, ◌-◌, ◌*◌, ◌/◌, ◌%◌, ◌^◌, Bool, true, false, not, ◌&&◌, ◌||◌, Option, none,
  some, List, [], ◌∷◌, ◌++◌, length, get_elem?, ltb, leb, ◌==◌, if◌then◌else◌, bit_and, bit_or,
}
use efivar.Common.Words.{u16}
use efivar.Common.Outcome.{Outcome, ok, err, fault, enospc, ◌>>=◌, read}

-- `i < (limit >= 0 ? limit : i+1)`
abbrev pub below : Option ℕ → ℕ → Bool
below none i = true
below (some limit) i = ltb i limit

-- The loop of `ucs2len` at index `i`.
pub ucs2len_from : Option ℕ → ℕ → List ℕ → Outcome ℕ
ucs2len_from limit i [] = if below limit i then fault else ok i
ucs2len_from limit i (c ∷ rest) =
    let more = ucs2len_from limit (i + 1) rest in
    if below limit i && not (c == 0) then more else ok i

pub ucs2len : List ℕ → Option ℕ → Outcome ℕ
unfolding ucs2len_from
ucs2len s limit = ucs2len_from limit 0 s

-- `limit > 0 && rc > (size_t)limit`
abbrev pub exceeds : Option ℕ → ℕ → Bool
exceeds none rc = false
exceeds (some limit) rc = ltb 0 limit && ltb limit rc

abbrev pub limit_or : Option ℕ → ℕ → ℕ
limit_or none rc = rc
limit_or (some limit) rc = limit

pub ucs2size : List ℕ → Option ℕ → Outcome ℕ
unfolding ucs2len
ucs2size s limit = do
  n ← ucs2len s limit
  let rc = n * 2 + 2
  ok (if exceeds limit rc then limit_or limit rc else rc)

-- How many bytes behind the lead byte `c` the loop of `utf8len` skips.
pub extra_bytes : ℕ → ℕ
extra_bytes c =
    if bit_and c 0x80 == 0
    then 0
    else if bit_and c 0xc0 == 0xc0 && bit_and c 0x20 == 0
    then 1
    else if bit_and c 0xe0 == 0xe0 && bit_and c 0x10 == 0
    then 2
    else 0

-- The loop of `utf8len`; `skip` bytes are still to be passed over before the next test, which is made
-- at index `i + skip`.
pub utf8len_from : Option ℕ → ℕ → ℕ → ℕ → List ℕ → Outcome ℕ
unfolding extra_bytes
utf8len_from limit i j skip [] = if below limit (i + skip) then fault else ok j
utf8len_from limit i j (suc skip) (c ∷ rest) = utf8len_from limit (i + 1) j skip rest
utf8len_from limit i j zero (c ∷ rest) =
    let more = utf8len_from limit (i + 1) (j + 1) (extra_bytes c) rest in
    if below limit i && not (c == 0) then more else ok j

pub utf8len : List ℕ → Option ℕ → Outcome ℕ
unfolding utf8len_from
utf8len s limit = utf8len_from limit 0 0 0 s

pub utf8size : List ℕ → Option ℕ → Outcome ℕ
unfolding utf8len
utf8size s limit = do
  ret ← utf8len s limit
  ok (if ltb ret (limit_or limit (ret + 1)) then ret + 1 else ret)

-- `((val) & ((mask) << (shift))) >> (shift)`
pub ev_bits : ℕ → ℕ → ℕ → ℕ
ev_bits val mask shift = bit_and val (mask * 2 ^ shift) / 2 ^ shift

-- What the loop of `ucs2_to_utf8` writes for one unit.
pub encode_unit : ℕ → List ℕ
unfolding ev_bits
encode_unit c =
    if leb c 0x7f
    then c ∷ []
    else if leb c 0x7ff
    then bit_or 0xc0 (ev_bits c 0x1f 6) ∷ bit_or 0x80 (ev_bits c 0x3f 0) ∷ []
    else bit_or 0xe0 (ev_bits c 0xf 12)
      ∷ bit_or 0x80 (ev_bits c 0x3f 6)
      ∷ bit_or 0x80 (ev_bits c 0x3f 0)
      ∷ []

-- The loop of `ucs2_to_utf8`: it reads a unit before it tests the index against the limit.
pub ucs2_to_utf8_from : ℕ → ℕ → List ℕ → Outcome (List ℕ)
ucs2_to_utf8_from limit i [] = fault
ucs2_to_utf8_from limit i (c ∷ rest) =
    let more = ucs2_to_utf8_from limit (i + 1) rest in
    if not (c == 0) && ltb i limit then (more >>= λ out. ok (encode_unit c ++ out)) else ok []

-- The allocated string, without its NUL. The buffer of `limit * 6 + 1` bytes is large enough: a unit
-- takes at most three. Allocation is taken to succeed.
pub ucs2_to_utf8 : List ℕ → Option ℕ → Outcome (List ℕ)
unfolding ucs2_to_utf8_from encode_unit ucs2len
ucs2_to_utf8 s none = do limit ← ucs2len s none; ucs2_to_utf8_from limit 0 s
ucs2_to_utf8 s (some limit) = ucs2_to_utf8_from limit 0 s

-- How many bytes `utf8_to_ucs2` takes at the lead byte `c`.
pub lead_width : ℕ → ℕ
lead_width c =
    if bit_and c 0xe0 == 0xe0 && bit_and c 0x10 == 0
    then 3
    else if bit_and c 0xc0 == 0xc0 && bit_and c 0x20 == 0
    then 2
    else 1

pub decode_two : ℕ → ℕ → ℕ
decode_two c d = bit_or (bit_and c 0x1f * 2 ^ 6) (bit_and d 0x3f)

pub decode_three : ℕ → ℕ → ℕ → ℕ
decode_three c d e =
    bit_or (bit_or (bit_and c 0x0f * 2 ^ 12) (bit_and d 0x3f * 2 ^ 6)) (bit_and e 0x3f)

-- `val16 = val`, at the lead byte `c`, which the bytes `rest` follow.
pub two_at : ℕ → List ℕ → Outcome ℕ
unfolding decode_two
two_at c rest = read (get_elem? rest 0) >>= λ d. ok (u16 (decode_two c d))

pub three_at : ℕ → List ℕ → Outcome ℕ
unfolding decode_three
three_at c rest =
    read (get_elem? rest 0) >>= λ d. read (get_elem? rest 1) >>= λ e. ok (u16 (decode_three c d e))

pub decode_unit : ℕ → List ℕ → Outcome ℕ
unfolding two_at three_at lead_width
decode_unit c rest =
    if lead_width c == 3
    then three_at c rest
    else if lead_width c == 2
    then two_at c rest
    else ok (bit_and c 0x7f)

-- The loop of `utf8_to_ucs2`: the units that it stores. `skip` bytes have been read and are still to be
-- passed over before the next test, which is made at index `i + skip`.
pub utf8_to_ucs2_from : ℕ → ℕ → ℕ → List ℕ → Outcome (List ℕ)
utf8_to_ucs2_from size i skip [] = if ltb (i + skip) size then fault else ok []
utf8_to_ucs2_from size i (suc skip) (c ∷ rest) = utf8_to_ucs2_from size (i + 1) skip rest
utf8_to_ucs2_from size i zero (c ∷ rest) =
    let more = utf8_to_ucs2_from size (i + 1) (lead_width c - 1) rest in
    let stored = decode_unit c rest >>= λ u. more >>= λ out. ok (u ∷ out) in
    if ltb i size && not (c == 0) then stored else ok []

-- What `utf8_to_ucs2` returns and the units that it stores from the destination's start on.
pub record Written : Type 0 where
  pub rc : ℕ
  pub units : List ℕ

pub written : List ℕ → Written
written all = record { rc = length all; units = all }

-- `utf8_to_ucs2` with a destination that is not NULL and a `size` that is not negative.
pub utf8_to_ucs2 : ℕ → Bool → List ℕ → Outcome Written
unfolding written
utf8_to_ucs2 size terminate utf8 = utf8len utf8 none >>= λ n.
    let req = if terminate && ltb 0 (n * 2) then n * 2 + 1 else n * 2 in
    let store = utf8_to_ucs2_from size 0 0 utf8 >>= λ out.
    ok (written (if terminate then out ++ (0 ∷ []) else out)) in
    if size == 0 || req == 0
    then ok (record { rc = req; units = [] })
    else if ltb size req
    then err enospc
    else store
