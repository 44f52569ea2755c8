-- ===== src/SecDb/Space.antt =====
-- src/secdb.c: where `efi_secdb_realize` stays inside its buffer.
use efivar.Common.{
  ℕ, ◌+◌, ◌-◌, ◌*◌, ◌^◌, ◌≤◌, ◌<◌, ◌≡◌, refl, sym, ap, ◌∙◌, subst, Bool, true, List, [], ◌∷◌, ◌++◌,
  length, All, arith, take, drop, replicate, length-append, length-take, length-drop, false, ltb,
  ◌||◌, leb,
}
use efivar.Common.Words.{u64}
use efivar.Common.Outcome.{Outcome, ok, >>=-returned, ◌>>=◌}
use efivar.Common.Memory.{le_bytes, load, store, concat}
use efivar.Variable.Import.{minus64}
use efivar.EslIter.{list_header}
use efivar.EslIter.Layout.{Signature}
use efivar.SecDb.{Sublist, Secdb, type_max}
use efivar.SecDb.Valid.{IsSublist}
use efivar.SecDb.Added.{has_owner-known}
use efivar.SecDb.Visit.{
  VisitorStatus, VisitorState, visitor_continue, align_up, grow, start_list, write_entry,
  secdb_realize_visitor, visit_entries, secdb_visit_entries, visit_lists, efi_secdb_visit_entries,
  efi_secdb_realize,
}
use efivar.SecDb.Realize.{front, front_size, length-replicate, align_up-le}
use efivar.SecDb.Written.{
  at_end, HasSpaces, entry_size, le-product, secdb_visit_entries-list, concat-empty,
}

store-inside :
    (at : ℕ) (bs buf out : List ℕ)
    → store at bs buf ≡ ok out
    → (at + length bs ≤ length buf) × (length out ≡ length buf)
unfolding store
store-inside at bs buf out h = ground (
  arith,
  length-take at buf,
  length-drop (at + length bs) buf,
  length-append (take at buf) (bs ++ drop (at + length bs) buf),
  length-append bs (drop (at + length bs) buf),
)

length-grow : (pos a : ℕ) (buf : List ℕ) → pos ≤ length buf → pos ≤ a → length (grow pos a buf) ≡ a
unfolding grow
length-grow pos a buf h k = omega (
  arith,
  length-append (take pos buf) (replicate (a - pos) 0),
  length-take pos buf,
  length-replicate (a - pos),
)

ok-injective : {A : Type 0} (a b : A) → ok a ≡ ok b → a ≡ b
ok-injective a b h = cc

load-length : (n : ℕ) (buf out : List ℕ) → load 0 n buf ≡ ok out → length out ≡ n
unfolding load
load-length n buf out h = ground (arith, length-take n buf)

-- A write of an entry that stays inside the buffer.
write_entry-inside :
    (owner contents : List ℕ) (datasz esdsz : ℕ) (st st1 : VisitorState)
    → write_entry owner contents datasz esdsz st ≡ ok st1
    → st.pos + 16 + datasz ≤ length st.buf
unfolding write_entry
write_entry-inside owner contents datasz esdsz st st1 h =
    let (buf1, s1, h1) = >>=-returned _ st1 (store st.pos owner st.buf) h in
    let (bytes, l1, h2) = >>=-returned _ st1 (load 0 datasz contents) h1 in
    let (buf2, s2, h3) = >>=-returned _ st1 (store (st.pos + 16) bytes buf1) h2 in
    omega (arith, store-inside _ _ _ _ s1, store-inside _ _ _ _ s2, load-length _ _ _ l1)

start_list-size :
    (page_size : ℕ) (alg_guid : ℕ → List ℕ) (algorithm esdsz : ℕ) (st st1 : VisitorState)
    → st.pos ≤ length st.buf
    → start_list page_size alg_guid algorithm esdsz st ≡ ok st1
    → (length st1.buf ≡ align_up (st.pos + 8 + esdsz) page_size) × (st1.pos ≡ st.pos + 28)
unfolding start_list
start_list-size page_size alg_guid algorithm esdsz st st1 le h =
    let allocsz = align_up (st.pos + 8 + esdsz) page_size in
    let (buf1, s1, h1) =
      >>=-returned _ st1 (store st.pos (alg_guid algorithm) (grow st.pos allocsz st.buf)) h in
    let (buf2, s2, h2) =
      >>=-returned _ st1 (store (st.pos + 16) (le_bytes 4 list_header) buf1) h1 in
    let (buf3, s3, h3) = >>=-returned _ st1 (store (st.pos + 20) (le_bytes 4 0) buf2) h2 in
    let (buf4, s4, h4) = >>=-returned _ st1 (store (st.pos + 24) (le_bytes 4 esdsz) buf3) h3 in
    let same_buf : length st1.buf ≡ length buf4 =
      ap (λ (st' : VisitorState). length st'.buf) (ok-injective _ _ (sym h4)) in
    (
      omega (
        arith,
        same_buf,
        store-inside _ _ _ _ s1,
        store-inside _ _ _ _ s2,
        store-inside _ _ _ _ s3,
        store-inside _ _ _ _ s4,
        length-grow st.pos allocsz st.buf le
            (omega (arith, align_up-le (st.pos + 8 + esdsz) page_size)),
      ),
      ap (λ (st' : VisitorState). st'.pos) (ok-injective _ _ (sym h4)),
    )

-- The visit of the first entry of a list succeeds only with that space.
visitor-space :
    (page_size : ℕ) (alg_guid : ℕ → List ℕ) (i algorithm datasz : ℕ) (owner contents : List ℕ)
    (st : VisitorState) (r : VisitorStatus × VisitorState)
    → algorithm < type_max
    → datasz + 16 < 2 ^ 64
    → st.pos ≤ length st.buf
    → secdb_realize_visitor page_size alg_guid i 0 owner algorithm contents datasz st ≡ ok r
    → st.pos + 28 + (datasz + 16) ≤ align_up (st.pos + 8 + (datasz + 16)) page_size
unfolding secdb_realize_visitor
visitor-space page_size alg_guid i algorithm datasz owner contents st r known small le h =
    let whole : u64 (datasz + 16) ≡ datasz + 16 = omega arith in
    let always : (ltb st.listnum i || true) ≡ true = ground arith in
    let unknown : leb type_max algorithm ≡ false = ground arith in
    let rest : VisitorState → Outcome (VisitorStatus × VisitorState) = λ st1.
      write_entry owner contents datasz (datasz + 16) st1 >>= λ st2.
      ok (visitor_continue, record st2 { listnum = i }) in
    let eq : secdb_realize_visitor page_size alg_guid i 0 owner algorithm contents datasz st
        ≡ (start_list page_size alg_guid algorithm (datasz + 16) st >>= rest) =
      rw (has_owner-known algorithm known) (rw whole (rw always (rw unknown refl))) in
    let (st1, started, h1) =
      >>=-returned rest r (start_list page_size alg_guid algorithm (datasz + 16) st) (sym eq ∙ h) in
    let (st2, written, _) =
      >>=-returned _ r (write_entry owner contents datasz (datasz + 16) st1) h1 in
    let (size, pos) =
      start_list-size page_size alg_guid algorithm (datasz + 16) st st1 le started in
    omega (arith, size, pos, write_entry-inside owner contents datasz (datasz + 16) st1 st2 written)

module _ (page_size : ℕ) (alg_guid : ℕ → List ℕ)
    (guid_sizes : (type : ℕ) → type < type_max → length (alg_guid type) ≡ 16) (spare : ℕ) where
  first-space :
      (es : List Signature) (i algorithm sigsz : ℕ) (st : VisitorState)
      (r : VisitorStatus × VisitorState)
      → algorithm < type_max
      → 16 ≤ sigsz
      → sigsz < 2 ^ 64
      → 0 < length es
      → st.pos ≤ length st.buf
      → visit_entries (secdb_realize_visitor page_size alg_guid) i 0 algorithm (sigsz - 16) es st
        ≡ ok r
      → st.pos + 28 + sigsz ≤ align_up (st.pos + 8 + sigsz) page_size
  unfolding visit_entries
  first-space [] i algorithm sigsz st r known large small pos le h = absurd (omega arith)
  first-space (s ∷ ss) i algorithm sigsz st r known large small pos le h =
      let (a, visited, _) =
        >>=-returned _ r
          (secdb_realize_visitor page_size alg_guid i 0 s.owner algorithm s.contents (sigsz - 16)
            st)
          h in
      subst (λ n. st.pos + 28 + n ≤ align_up (st.pos + 8 + n) page_size) (omega arith)
        (visitor-space page_size alg_guid i algorithm (sigsz - 16) s.owner s.contents st a known
          (omega arith) le visited)

  list-space :
      (l : Sublist) (i : ℕ) (st : VisitorState) (r : VisitorStatus × VisitorState)
      → IsSublist spare l
      → st.pos ≤ length st.buf
      → secdb_visit_entries (secdb_realize_visitor page_size alg_guid) l i st ≡ ok r
      → st.pos + 28 + l.sigsz ≤ align_up (st.pos + 8 + l.sigsz) page_size
  unfolding secdb_visit_entries
  list-space l i st r v le h =
      let large : 16 ≤ l.sigsz = entry_size l.sigsz l.entries v.some_entry v.filled in
      let small : l.sigsz < 2 ^ 32 =
        omega (arith, v.sized, v.fits, le-product l.sigsz (length l.entries) v.some_entry) in
      let datasz : minus64 l.sigsz 16 ≡ l.sigsz - 16 = unfold minus64 in omega arith in
      let eq : visit_entries (secdb_realize_visitor page_size alg_guid) i 0 l.algorithm
            (l.sigsz - 16) l.entries st
          ≡ secdb_visit_entries (secdb_realize_visitor page_size alg_guid) l i st =
        rw (has_owner-known l.algorithm v.known, secdb_visit_entries) (rw datasz refl) in
      first-space l.entries i l.algorithm l.sigsz st r v.known large (omega arith) v.some_entry le
        (eq ∙ h)

  at_end-inside :
      (done junk : List ℕ) (listnum esl : ℕ)
      → (at_end page_size alg_guid guid_sizes spare done junk listnum esl).pos
        ≤ length (at_end page_size alg_guid guid_sizes spare done junk listnum esl).buf
  unfolding at_end concat
  at_end-inside done junk listnum esl = omega (arith, length-append done (junk ++ []))

  HasSpaces-needed :
      (ls : List Sublist) (i listnum esl : ℕ) (done junk : List ℕ) (r : Bool × VisitorState)
      → All (IsSublist spare) ls
      → visit_lists
          (secdb_realize_visitor page_size alg_guid)
          i
          ls
          (at_end page_size alg_guid guid_sizes spare done junk listnum esl)
        ≡ ok r
      → HasSpaces page_size (length done) ls
  unfolding visit_lists
  HasSpaces-needed [] i listnum esl done junk r h e = tt
  HasSpaces-needed (l ∷ ls) i listnum esl done junk r (v, h) e =
      let st = at_end page_size alg_guid guid_sizes spare done junk listnum esl in
      let (a, visited, _) =
        >>=-returned _ r (secdb_visit_entries (secdb_realize_visitor page_size alg_guid) l i st)
          e in
      let space : length done + 28 + l.sigsz ≤ align_up (length done + 8 + l.sigsz) page_size =
        unfold at_end in list-space l i st a v (at_end-inside done junk listnum esl) visited in
      let (tail, first) =
        secdb_visit_entries-list page_size alg_guid guid_sizes spare l i listnum esl done junk v
          space in
      let size =
        front_size page_size alg_guid done l.algorithm l.sigsz l.entries
          (guid_sizes l.algorithm v.known) v.filled (28 + l.sigsz * length l.entries) in
      let next =
        at_end page_size alg_guid guid_sizes spare
          (concat (
            front page_size alg_guid done l.algorithm l.sigsz (28 + l.sigsz * length l.entries)
              l.entries))
          tail i (length done) in
      let eq : visit_lists (secdb_realize_visitor page_size alg_guid) (i + 1) ls next
          ≡ visit_lists (secdb_realize_visitor page_size alg_guid) i (l ∷ ls) st =
        rw first refl in
      (
        space,
        subst (λ n. HasSpaces page_size n ls) size
            (HasSpaces-needed ls (i + 1) i (length done) _ tail r h (eq ∙ e)),
      )

-- `efi_secdb_realize` of a database whose lists are well formed stays inside its buffer only where, for each list, its position
-- plus 8 and the size of an entry, rounded up to pages, is as much as its position plus 28 and the size of an entry.
pub efi_secdb_realize-needs_space :
    (page_size spare : ℕ) (alg_guid : ℕ → List ℕ) (db : Secdb) (r : List ℕ × ℕ)
    → ((type : ℕ) → type < type_max → length (alg_guid type) ≡ 16)
    → All (IsSublist spare) db.lists
    → efi_secdb_realize page_size alg_guid db ≡ ok r
    → HasSpaces page_size 0 db.lists
unfolding efi_secdb_realize efi_secdb_visit_entries at_end concat
efi_secdb_realize-needs_space page_size spare alg_guid db r guid_sizes h e =
    let (a, visited, _) =
      >>=-returned _ r
        (visit_lists (secdb_realize_visitor page_size alg_guid) 0 db.lists
          (record { listnum = 0; esl = 0; buf = replicate page_size 0; pos = 0 }))
        e in
    HasSpaces-needed page_size alg_guid guid_sizes spare db.lists 0 0 0 [] (replicate page_size 0) a
      h
      (ap
          (λ (b : List ℕ).
            visit_lists (secdb_realize_visitor page_size alg_guid) 0 db.lists
              (record { listnum = 0; esl = 0; buf = b; pos = 0 }))
          (concat-empty (replicate page_size 0))
        ∙ visited)
