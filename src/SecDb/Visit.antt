-- ===== src/SecDb/Visit.antt =====
-- src/secdb.c: visiting the entries of a database, and `efi_secdb_realize`, which writes them as signature lists. The header of
-- a list is empty there. `page_size` is the system's, and `alg_guid` gives the GUIDs of the types, which the build generates.
use efivar.Common.{
  ℕ, ◌+◌, ◌-◌, ◌%◌, Bool, true, false, ◌||◌, List, [], ◌∷◌, ◌++◌, take, replicate, ltb, leb, ◌==◌,
  if◌then◌else◌,
}
use efivar.Common.Words.{u32, u64}
use efivar.Common.Outcome.{Outcome, ok, err, fault, ◌>>=◌}
use efivar.Common.Memory.{le_bytes, load, load_le, store}
use efivar.Variable.Import.{minus64}
use efivar.EslIter.{guid_size, list_header}
use efivar.EslIter.Layout.{Signature}
use efivar.SecDb.{Sublist, Secdb, type_max, secdb_entry_has_owner_from_type}

-- `efi_secdb_visitor_status_t`
pub data VisitorStatus : Type 0 where
  visitor_error visitor_break visitor_continue : VisitorStatus

-- A visitor is given the numbers of the list and of the entry, the owner, the type, the data and their size.
abbrev pub Visitor : Type 0 → Type 0
Visitor S = ℕ → ℕ → List ℕ → ℕ → List ℕ → ℕ → S → Outcome (VisitorStatus × S)

module _ {S : Type 0} (visitor : Visitor S) where
  -- The loop over the entries of list `i`, from entry `j` on.
  unfoldable pub visit_entries : ℕ → ℕ → ℕ → ℕ → List Signature → S → Outcome (VisitorStatus × S)
  visit_entries i j algorithm datasz [] st = ok (visitor_continue, st)
  visit_entries i j algorithm datasz (s ∷ ss) st =
      visitor i j s.owner algorithm s.contents datasz st >>= λ (status, st1). elim status [
        | visitor_error ↦ ok (visitor_error, st1)
        | visitor_break ↦ ok (visitor_break, st1)
        | visitor_continue ↦ visit_entries i (j + 1) algorithm datasz ss st1
      ]

  unfoldable pub secdb_visit_entries : Sublist → ℕ → S → Outcome (VisitorStatus × S)
  unfolding visit_entries secdb_entry_has_owner_from_type
  secdb_visit_entries l i st = elim (secdb_entry_has_owner_from_type l.algorithm) [
    | ok has_owner ↦
        visit_entries i 0 l.algorithm (minus64 l.sigsz (if has_owner then guid_size else 0))
          l.entries st
    | err e ↦ ok (visitor_error, st)
    | fault ↦ fault
  ]

  -- The loop of `efi_secdb_visit_entries` from list `i` on; `false` stands for the return of -1.
  unfoldable pub visit_lists : ℕ → List Sublist → S → Outcome (Bool × S)
  unfolding secdb_visit_entries
  visit_lists i [] st = ok (true, st)
  visit_lists i (l ∷ ls) st = secdb_visit_entries l i st >>= λ (status, st1). elim status [
    | visitor_error ↦ ok (false, st1)
    | visitor_break ↦ ok (true, st1)
    | visitor_continue ↦ visit_lists (i + 1) ls st1
  ]

  unfoldable pub efi_secdb_visit_entries : Secdb → S → Outcome (Bool × S)
  unfolding visit_lists
  efi_secdb_visit_entries db st = visit_lists 0 db.lists st

-- `struct visitor_state`; the current list is an offset into the buffer.
pub record VisitorState : Type 0 where
  pub listnum : ℕ
  pub esl : ℕ
  pub buf : List ℕ
  pub pos : ℕ

-- `ALIGN_UP`
unfoldable pub align_up : ℕ → ℕ → ℕ
align_up value align = value + (align - value % align) % align

-- `realloc` to a size that is at least `pos`, and the `memset` of what is behind `pos`.
unfoldable pub grow : ℕ → ℕ → List ℕ → List ℕ
grow pos allocsz buf = take pos buf ++ replicate (allocsz - pos) 0

-- The entry behind what is there, and the size of its list.
unfoldable pub write_entry : List ℕ → List ℕ → ℕ → ℕ → VisitorState → Outcome VisitorState
write_entry owner contents datasz esdsz st = store st.pos owner st.buf >>= λ buf1.
    load 0 datasz contents >>= λ bytes. store (st.pos + guid_size) bytes buf1 >>= λ buf2.
    load_le (st.esl + 16) 4 buf2 >>= λ size.
    store (st.esl + 16) (le_bytes 4 (u32 (size + esdsz))) buf2 >>= λ buf3.
    ok (record st { buf = buf3; pos = st.pos + esdsz })

module _ (page_size : ℕ) (alg_guid : ℕ → List ℕ) where
  -- A new list at the end. The space asked for counts a pointer of 8 bytes in place of the header of the list.
  unfoldable pub start_list : ℕ → ℕ → VisitorState → Outcome VisitorState
  unfolding align_up grow
  start_list algorithm esdsz st =
      let pos = st.pos in
      store pos (alg_guid algorithm) (grow pos (align_up (pos + 8 + esdsz) page_size) st.buf)
      >>= λ buf1. store (pos + 16) (le_bytes 4 list_header) buf1 >>= λ buf2.
          store (pos + 20) (le_bytes 4 0) buf2 >>= λ buf3.
          store (pos + 24) (le_bytes 4 esdsz) buf3 >>= λ buf4.
          ok (record st { esl = pos; buf = buf4; pos = pos + list_header })

  unfoldable pub extend_list : ℕ → VisitorState → VisitorState
  unfolding align_up grow
  extend_list esdsz st = record st {
    buf = grow st.pos (align_up (st.pos + esdsz) page_size) st.buf;
  }

  -- `owner` is copied whatever the type is. The GUID of an unknown type is NULL.
  unfoldable pub secdb_realize_visitor : Visitor VisitorState
  secdb_realize_visitor listnum signum owner algorithm contents datasz st =
      let has_owner : Bool = elim (secdb_entry_has_owner_from_type algorithm) [
        | ok b ↦ b
        | _ ↦ true
      ] in
      let esdsz = u64 (datasz + (if has_owner then guid_size else 0)) in
      let new = ltb st.listnum listnum || signum == 0 in
      (if new
        then (if leb type_max algorithm then fault else start_list algorithm esdsz st)
        else ok (extend_list esdsz st))
      >>= λ st1. write_entry owner contents datasz esdsz st1 >>= λ st2.
          ok (visitor_continue, record st2 { listnum = listnum })

  -- The buffer, and how much of it is in use. What the visit returns is not looked at.
  unfoldable pub efi_secdb_realize : Secdb → Outcome (List ℕ × ℕ)
  unfolding secdb_realize_visitor efi_secdb_visit_entries
  efi_secdb_realize db =
      efi_secdb_visit_entries secdb_realize_visitor db
        (record { listnum = 0; esl = 0; buf = replicate page_size 0; pos = 0 })
      >>= λ r. ok (r.1.buf, r.1.pos)
