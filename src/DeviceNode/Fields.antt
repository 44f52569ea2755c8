-- ===== src/DeviceNode/Fields.antt =====
-- src/dp.c: what `efidp_make_generic` and the assignments behind it leave in the buffer.
use efivar.Common.{
  ℕ, ◌+◌, ◌^◌, ◌≤◌, ◌<◌, ◌≡◌, refl, ap, sym, ◌∙◌, true, false, List, [], ◌∷◌, ◌++◌, length, take,
  drop, append_assoc, length-append, length-take, length-drop, drop-drop, ltb, Bool-cases, inl, inr,
  ◌==◌, not, ◌&&◌, if◌then◌else◌, arith,
}
use efivar.Common.Outcome.{Outcome, ok, err, enospc, ◌>>=◌}
use efivar.Common.Memory.{le_bytes, store, concat, store-middle, take-drop-append}
use efivar.DevicePath.Layout.{Node, encode}
use efivar.DeviceNode.{Made, efidp_make_generic, assign, assign_swapped, make_with}

-- A place of memory cut in two.
cut : (n : ℕ) (old back : List ℕ) → old ++ back ≡ take n old ++ (drop n old ++ back)
cut n old back =
    ap (λ (o : List ℕ). o ++ back) (sym (take-drop-append n old))
    ∙ append_assoc (take n old) (drop n old) back

-- Fields that fill a place of their size replace what is there.
assign-fields :
    (fs : List (List ℕ)) (front old back : List ℕ)
    → length old ≡ length (concat fs)
    → assign (length front) fs (front ++ (old ++ back)) ≡ ok (front ++ (concat fs ++ back))
unfolding assign concat
assign-fields [] front [] back e = refl
assign-fields [] front (x ∷ old) back e = absurd (omega (arith, e))
assign-fields (f ∷ fs) front old back e =
    let n = length f in
    let room : length f ≤ length old = omega (arith, e, length-append f (concat fs)) in
    let stored =
      store-middle front (take n old) f (drop n old ++ back)
        (omega (arith, room, length-take n old)) in
    ap (λ (b : List ℕ). assign (length front) (f ∷ fs) (front ++ b)) (cut n old back)
    ∙ (rw stored (
        ap (λ (b : List ℕ). assign (length front + length f) fs b)
          (sym (append_assoc front f (drop n old ++ back)))
        ∙ ap (λ (k : ℕ). assign k fs ((front ++ f) ++ (drop n old ++ back)))
            (sym (length-append front f))
        ∙ assign-fields fs (front ++ f) (drop n old) back
            (omega (arith, e, length-drop n old, length-append f (concat fs)))
        ∙ ap (λ (b : List ℕ). ok b)
            (append_assoc front f (concat fs ++ back)
              ∙ ap (λ (b : List ℕ). front ++ b) (sym (append_assoc f (concat fs) back)))))

-- The header of a node, before other bytes.
pub headed : ℕ → ℕ → ℕ → List ℕ → List ℕ
headed type subtype size rest = type ∷ subtype ∷ (le_bytes 2 size ++ rest)

make_generic-headed :
    (buf : List ℕ) (type subtype size : ℕ)
    → 4 ≤ size
    → size < 2 ^ 16
    → size ≤ length buf
    → efidp_make_generic buf type subtype size
      ≡ ok (record { rc = size; buffer = headed type subtype size (drop 4 buf) })
unfolding efidp_make_generic headed store le_bytes
make_generic-headed [] type subtype size min max room = absurd (omega arith)
make_generic-headed (a ∷ []) type subtype size min max room = absurd (omega arith)
make_generic-headed (a ∷ b ∷ []) type subtype size min max room = absurd (omega arith)
make_generic-headed (a ∷ b ∷ c ∷ []) type subtype size min max room = absurd (omega arith)
make_generic-headed (a ∷ b ∷ c ∷ d ∷ buf) type subtype size min max room = ground arith

-- What a maker leaves of a buffer: nothing of an empty one but the size needed, an error of one that is too small, and else
-- the bytes of a node before what was behind it.
unfoldable pub outcome : List ℕ → Node → Outcome Made
outcome buf n =
    let size = 4 + length n.body in
    if length buf == 0
    then ok (record { rc = size; buffer = buf })
    else if ltb (length buf) size
    then err enospc
    else ok (record { rc = size; buffer = encode n ++ drop size buf })

-- Assignments that fill the body of a node.
abbrev pub Fills : ℕ → ℕ → List ℕ → (List ℕ → Outcome (List ℕ)) → Type 0
Fills type subtype body fill =
    (old back : List ℕ)
    → length old ≡ length body
    → fill (headed type subtype (4 + length body) (old ++ back))
      ≡ ok (headed type subtype (4 + length body) (body ++ back))

make_generic-small :
    (b : ℕ) (bs : List ℕ) (type subtype size : ℕ)
    → ltb (length (b ∷ bs)) size ≡ true
    → efidp_make_generic (b ∷ bs) type subtype size ≡ err enospc
unfolding efidp_make_generic
make_generic-small b bs type subtype size small = ground (arith, small)

module _ (n : Node) (fill : List ℕ → Outcome (List ℕ)) (max : 4 + length n.body < 2 ^ 16)
    (fills : Fills n.kind n.sub n.body fill) (buf : List ℕ)
    (room : 4 + length n.body ≤ length buf) where
  filled_fact :
      fill (headed n.kind n.sub (4 + length n.body) (drop 4 buf))
      ≡ ok (encode n ++ drop (4 + length n.body) buf)
  unfolding headed encode
  filled_fact =
      let m = length n.body in
      ap (λ (b : List ℕ). fill (headed n.kind n.sub (4 + m) b))
        (sym (take-drop-append m (drop 4 buf)))
      ∙ fills (take m (drop 4 buf)) (drop m (drop 4 buf))
          (omega (arith, room, length-take m (drop 4 buf), length-drop 4 buf))
      ∙ ap (λ (b : List ℕ). ok (n.kind ∷ n.sub ∷ b))
          (sym (append_assoc (le_bytes 2 (4 + m)) n.body (drop m (drop 4 buf)))
            ∙ ap (λ (b : List ℕ). (le_bytes 2 (4 + m) ++ n.body) ++ b) (drop-drop m 4 buf))

  made_fact :
      make_with buf n.kind n.sub (4 + length n.body) fill
      ≡ ok (record { rc = 4 + length n.body; buffer = encode n ++ drop (4 + length n.body) buf })
  unfolding make_with
  made_fact =
      rw (make_generic-headed buf n.kind n.sub (4 + length n.body) (omega arith) max room)
        (rw used (rw filled_fact refl))
    where
      used : (not (length buf == 0) && 4 + length n.body == 4 + length n.body) ≡ true
      used = ground (arith, room)

pub make_with-outcome :
    (buf : List ℕ) (n : Node) (fill : List ℕ → Outcome (List ℕ))
    → 4 + length n.body < 2 ^ 16
    → Fills n.kind n.sub n.body fill
    → make_with buf n.kind n.sub (4 + length n.body) fill ≡ outcome buf n
unfolding outcome
make_with-outcome [] n fill max fills = unfold make_with efidp_make_generic in refl
make_with-outcome (b ∷ bs) n fill max fills =
    let size = 4 + length n.body in
    elim (Bool-cases (ltb (length (b ∷ bs)) size)) [
      | inl small ↦ rw small (
          rw nonempty
            (unfold make_with in rw (make_generic-small b bs n.kind n.sub size small) refl))
      | inr large ↦
          rw large (rw nonempty (made_fact n fill max fills (b ∷ bs) (ground (arith, large))))
    ]
  where
    nonempty : (length (b ∷ bs) == 0) ≡ false
    nonempty = ground arith

-- Fields in their order, and two fields in the other order.
pub assign-Fills :
    (type subtype : ℕ) (fields : List (List ℕ))
    → Fills type subtype (concat fields) (assign 4 fields)
unfolding headed le_bytes
assign-Fills type subtype fields old back e =
    let size = 4 + length (concat fields) in
    assign-fields fields (type ∷ subtype ∷ le_bytes 2 size) old back e

-- A store behind another place.
store-second :
    (front p q new back : List ℕ)
    → length new ≡ length q
    → store (length front + length p) new (front ++ (p ++ (q ++ back)))
      ≡ ok (front ++ (p ++ (new ++ back)))
store-second front p q new back e =
    ap (λ (k : ℕ). store k new (front ++ (p ++ (q ++ back)))) (sym (length-append front p))
    ∙ ap (λ (b : List ℕ). store (length (front ++ p)) new b)
        (sym (append_assoc front p (q ++ back)))
    ∙ store-middle (front ++ p) q new back e
    ∙ ap (λ (b : List ℕ). ok b) (append_assoc front p (new ++ back))

store-swapped :
    (front first second old back : List ℕ)
    → length old ≡ length (first ++ second)
    → (store (length front + length first) second (front ++ (old ++ back)) >>= λ buf.
        store (length front) first buf)
      ≡ ok (front ++ ((first ++ second) ++ back))
store-swapped front first second old back e =
    let n = length first in
    let p : length (take n old) ≡ n =
      omega (arith, e, length-append first second, length-take n old) in
    let q : length second ≡ length (drop n old) =
      omega (arith, e, length-append first second, length-drop n old) in
    let stored : store (length front + n) second (front ++ (old ++ back))
        ≡ ok (front ++ (take n old ++ (second ++ back))) =
      ap (λ (b : List ℕ). store (length front + n) second (front ++ b)) (cut n old back)
      ∙ ap
          (λ (k : ℕ).
            store (length front + k) second (front ++ (take n old ++ (drop n old ++ back))))
          (sym p)
      ∙ store-second front (take n old) (drop n old) second back q in
    rw stored (
      store-middle front (take n old) first (second ++ back) (sym p)
      ∙ ap (λ (b : List ℕ). ok (front ++ b)) (sym (append_assoc first second back)))

pub assign_swapped-Fills :
    (type subtype : ℕ) (first second : List ℕ)
    → Fills type subtype (first ++ second) (assign_swapped first second)
unfolding headed assign_swapped le_bytes
assign_swapped-Fills type subtype first second old back e =
    let size = 4 + length (first ++ second) in
    store-swapped (type ∷ subtype ∷ le_bytes 2 size) first second old back e
