-- ===== src/EslIter.antt =====
-- src/esl-iter.c: the iterator over the EFI_SIGNATURE_LISTs of a buffer, and the one over the entries of all lists. A
-- pointer into the buffer is an offset. What the code computes of an X.509 certificate only goes to the log.
pub mod Layout
pub mod Places
pub mod Bounds
pub mod Empty
pub mod Found
pub mod Steps
pub mod Walk
mod Tests
use efivar.Common.{
  ℕ, ◌+◌, ◌-◌, ◌*◌, ◌/◌, ◌%◌, ◌^◌, Bool, true, false, not, ◌&&◌, ◌||◌, Option, none, some, List, [],
  ◌∷◌, length, ltb, leb, ◌==◌, if◌then◌else◌,
}
use efivar.Common.Words.{u32}
use efivar.Common.Outcome.{Outcome, ok, err, fault, einval, eoverflow, ◌>>=◌, ◌>>◌, guard}
use efivar.Common.Memory.{le_bytes, load, load_le, store}
use efivar.Variable.Import.{minus64}

-- `sizeof(efi_signature_list_t)`, and the offsets of its fields behind the type.
abbrev pub list_header : ℕ
list_header = 28

abbrev pub guid_size : ℕ
guid_size = 16

-- `esl_list_iter`
pub record ListIter : Type 0 where
  pub buf : List ℕ
  pub len : ℕ
  pub offset : ℕ
  pub esl : Option ℕ

-- `esl_iter`. The index is an `unsigned int` that starts at -1.
pub record EslIter : Type 0 where
  pub iter : ListIter
  pub line : ℕ
  pub esd : ℕ
  pub nmemb : ℕ
  pub i : ℕ

unfoldable pub esl_list_iter_new : List ℕ → ℕ → Outcome ListIter
esl_list_iter_new buf len = do
  guard (leb (list_header + guid_size) len) einval
  ok (record { buf = buf; len = len; offset = 0; esl = none })

unfoldable pub esl_iter_new : List ℕ → ℕ → Outcome EslIter
unfolding esl_list_iter_new
esl_iter_new buf len = do
  guard (leb (list_header + guid_size) len) einval
  iter ← esl_list_iter_new buf len
  ok (record { iter = iter; line = 0; esd = 0; nmemb = 0; i = 2 ^ 32 - 1 })

-- A list that claims more bytes than are left is an error, or its size is corrected in the buffer.
unfoldable pub bound_list : Bool → ListIter → ℕ → Outcome ListIter
bound_list correct_size iter esl =
    let left = iter.len - iter.offset in
    load_le (esl + 16) 4 iter.buf >>= λ size.
    if leb size left
    then ok iter
    else if correct_size && ltb 0 left
    then (store (esl + 16) (le_bytes 4 left) iter.buf >>= λ buf. ok (record iter { buf = buf }))
    else err eoverflow

-- What an iterator returns besides an error: the end, or a list with the offset of its first entry and the size of one.
pub data ListNext : Type 0 where
  list_end : ListIter → ListNext
  list_next : ListIter → List ℕ → ℕ → ℕ → ListNext

unfoldable pub is_zero : List ℕ → Bool
is_zero [] = true
is_zero (b ∷ bs) = b == 0 && is_zero bs

-- The end of `esl_list_iter_next`, at the list `esl`.
unfoldable pub list_at : Bool → ListIter → ℕ → Outcome ListNext
unfolding bound_list is_zero
list_at correct_size iter esl = do
  head ← load esl list_header iter.buf
  if is_zero head then ok (list_end iter) else (do
    bounded ← bound_list correct_size iter esl
    header_size ← load_le (esl + 20) 4 bounded.buf
    type ← load esl guid_size bounded.buf
    sig_size ← load_le (esl + 24) 4 bounded.buf
    ok (list_next bounded type (esl + (list_header + header_size)) sig_size))

-- The next list behind the one at `esl`.
unfoldable pub advance : Bool → ListIter → ℕ → Outcome ListNext
unfolding bound_list list_at
advance correct_size iter esl = do
  bounded ← bound_list correct_size iter esl
  size ← load_le (esl + 16) 4 bounded.buf
  let offset = bounded.offset + size
  if leb bounded.len (u32 offset)
      then ok (list_end (record bounded { offset = offset }))
      else list_at correct_size (record bounded { offset = offset; esl = some offset }) offset

-- The first list, or the one behind the list at the offset given.
unfoldable pub next_from : Bool → ListIter → Option ℕ → Outcome ListNext
unfolding bound_list list_at advance
next_from correct_size iter none = do
  bounded ← bound_list correct_size (record iter { esl = some 0 }) 0
  list_at correct_size bounded 0
next_from correct_size iter (some esl) = advance correct_size iter esl

-- `esl_list_iter_next_with_size_correction`, which is `esl_list_iter_next` without the correction. After an error the
-- iterator is not kept.
unfoldable pub esl_list_iter_next : Bool → ListIter → Outcome ListNext
unfolding next_from
esl_list_iter_next correct_size iter = do
  guard (ltb (u32 iter.offset) iter.len) einval
  next_from correct_size iter iter.esl

-- `!iter->esl`
unfoldable pub current : ListIter → Outcome ℕ
current iter = elim iter.esl [ none ↦ err einval | some esl ↦ ok esl ]

unfoldable pub esl_list_signature_list_size : ListIter → Outcome ℕ
unfolding current
esl_list_signature_list_size iter = do
  esl ← current iter
  size ← load_le (esl + 16) 4 iter.buf
  guard (leb list_header size) einval
  ok size

unfoldable pub esl_list_header_size : ListIter → Outcome ℕ
unfolding current
esl_list_header_size iter = do esl ← current iter; load_le (esl + 20) 4 iter.buf

unfoldable pub esl_list_sig_size : ListIter → Outcome ℕ
unfolding current
esl_list_sig_size iter = do
  esl ← current iter
  size ← load_le (esl + 24) 4 iter.buf
  guard (leb 1 size) einval
  ok size

unfoldable pub esl_list_get_type : ListIter → Outcome (List ℕ)
unfolding current
esl_list_get_type iter = do esl ← current iter; load esl guid_size iter.buf

-- What `esl_iter_next` stores for the caller, and whether the entry is the first of a list.
pub record Entry : Type 0 where
  pub new_list : Bool
  pub type : List ℕ
  pub owner : List ℕ
  pub at : ℕ
  pub len : ℕ

pub data Next : Type 0 where
  iter_end : EslIter → Next
  iter_next : EslIter → Entry → Next

-- The end of `esl_iter_next`: the entry at `esd`. The size of the signature is a `size_t`.
unfoldable pub entry_at : EslIter → Bool → ℕ → Outcome Next
unfolding esl_list_get_type minus64
entry_at it new_list ss = do
  type ← esl_list_get_type it.iter
  owner ← load it.esd guid_size it.iter.buf
  ok (
      iter_next it (record {
        new_list = new_list;
        type = type;
        owner = owner;
        at = it.esd + guid_size;
        len = minus64 ss guid_size;
      }))

-- The first entry of the list that the list iterator has moved to.
unfoldable pub first_entry : EslIter → ListIter → ℕ → Outcome Next
unfolding esl_list_header_size esl_list_sig_size esl_list_signature_list_size entry_at minus64
first_entry it iter esd = do
  slh ← esl_list_header_size iter
  ss ← esl_list_sig_size iter
  sls ← esl_list_signature_list_size iter
  let room = minus64 (minus64 sls list_header) slh
  guard (room % ss == 0) einval
  entry_at (record it { iter = iter; esd = esd; i = 0; nmemb = room / ss }) true ss

-- The next entry of the same list. The bounds are those of the buffer, and of the place where the entry starts.
unfoldable pub next_entry : EslIter → Outcome Next
unfolding esl_list_sig_size esl_list_signature_list_size entry_at
next_entry it = do
  ss ← esl_list_sig_size it.iter
  sls ← esl_list_signature_list_size it.iter
  guard (leb (it.esd + ss) it.iter.len) eoverflow
  entry_at (record it { esd = it.esd + ss }) false ss

-- `esl_iter_next_with_size_correction`, which is `esl_iter_next` without the correction.
unfoldable pub esl_iter_next : Bool → EslIter → Outcome Next
unfolding esl_list_iter_next first_entry next_entry
esl_iter_next correct_size it0 =
    let it = record it0 { line = it0.line + 1; i = u32 (it0.i + 1) } in
    if it.i == it.nmemb
    then (esl_list_iter_next correct_size it.iter >>= λ r. elim r [
      | list_end iter ↦ ok (iter_end (record it { iter = iter; i = 0 }))
      | list_next iter type esd len ↦ first_entry it iter esd
    ])
    else next_entry it

unfoldable pub esl_iter_get_line : EslIter → ℕ
esl_iter_get_line it = it.line
