-- ===== src/LoadOption/Create.antt =====
-- src/loadopt.c: the bytes that `efi_loadopt_create` leaves.
use efivar.Common.{
  ℕ, zero, suc, ◌+◌, ◌*◌, ◌^◌, ◌≤◌, ◌<◌, ◌≡◌, ◌≢◌, refl, sym, ap, ◌∙◌, true, false, List, [], ◌∷◌,
  ◌++◌, length, drop, All, some, arith, append_assoc, append-nil, length-append, ltb, ◌==◌,
}
use efivar.Common.Outcome.{ok}
use efivar.Common.Memory.{
  le_bytes, concat, pieces, sum, Sized, pieces-Sized, concat-pieces, store-block, load_le-block,
  load-all, length-concat, length-le_bytes,
}
use efivar.Ucs2.{utf8_to_ucs2}
use efivar.Ucs2.Ascii.{IsAscii, ascii_units, utf8_of-ascii, utf8len-ascii}
use efivar.Ucs2.RoundTrip.{utf8_to_ucs2-string}
use efivar.Variable.Export.{unit_bytes}
use efivar.Variable.Image.{name_bytes, name_bytes-eq, length-name_bytes, length-unit_bytes}
use efivar.DevicePath.{end_type, end_entire, end_node, efidp_size}
use efivar.DevicePath.Layout.{Node, IsInner, encode, encode_all, path, length-encode}
use efivar.DevicePath.Size.{efidp_size-path}
use efivar.DevicePath.Valid.{accepts, efidp_is_valid}
use efivar.DevicePath.Walk.{efidp_is_valid-accepted}
use efivar.LoadOption.{
  write_description, fill, check_path, efi_loadopt_create, efi_loadopt_attrs, efi_loadopt_pathlen,
}

module _ (n : Node) (ns : List Node) (inner : All IsInner (n ∷ ns)) (not_end : n.kind ≢ end_type)
    (not_entire : n.kind ≢ end_entire)
    (accepted : accepts n.kind n.sub (4 + length n.body) ≡ true) where
  pub first_node : path (n ∷ ns) ≡ encode n ++ (encode_all ns ++ end_node)
  unfolding path encode_all
  first_node = append_assoc (encode n) (encode_all ns) end_node

  pub path_size : 4 + length n.body ≤ length (path (n ∷ ns))
  path_size = omega (
    arith,
    ap length first_node,
    length-append (encode n) (encode_all ns ++ end_node),
    length-encode n,
  )

  -- A path whose first node is accepted passes the tests at its own length.
  check_path-path :
      (turns : ℕ)
      → length ns + 1 < turns
      → check_path turns (path (n ∷ ns)) (length (path (n ∷ ns))) ≡ some (ok tt)
  unfolding check_path
  check_path-path zero lt = absurd (omega arith)
  check_path-path (suc turns) lt = ground (arith, valid_fact, size_fact)
    where
      valid_fact :
          efidp_is_valid (suc turns) (path (n ∷ ns)) (some (length (path (n ∷ ns))))
          ≡ some (ok true)
      valid_fact =
          ap (λ (p : List ℕ). efidp_is_valid (suc turns) p (some (length (path (n ∷ ns)))))
            first_node
          ∙ efidp_is_valid-accepted n turns (length (path (n ∷ ns))) (encode_all ns ++ end_node)
              inner.0 not_end accepted path_size

      size_fact : efidp_size (suc turns) (path (n ∷ ns)) ≡ some (ok (length (path (n ∷ ns))))
      size_fact =
          ap (efidp_size (suc turns)) (sym (append-nil (path (n ∷ ns))))
          ∙ efidp_size-path (n ∷ ns) (suc turns) [] inner (omega arith)

write_description-block :
    (s : List ℕ) (front : List (List ℕ)) (old : List ℕ) (back : List (List ℕ))
    → All IsAscii s
    → 0 < length s
    → 6 ≡ length (concat front)
    → length old ≡ 2 * length s + 2
    → write_description (length s * 2 + 2) s (concat (front ++ (old ∷ back)))
      ≡ ok (concat (front ++ (name_bytes s ∷ back)))
unfolding write_description
write_description-block s front old back h pos p q = ground (
  arith,
  units_fact,
  name_bytes-eq s,
  store-block 6 front old (unit_bytes (s ++ (0 ∷ []))) back p,
  length-unit_bytes (s ++ (0 ∷ [])),
  length-append s (0 ∷ []),
)
  where
    units_fact :
        utf8_to_ucs2 (length s * 2 + 2) true (s ++ (0 ∷ []))
        ≡ ok (record { rc = length s + 1; units = s ++ (0 ∷ []) })
    units_fact =
        ap (λ (u : List ℕ). utf8_to_ucs2 (length s * 2 + 2) true (u ++ (0 ∷ [])))
          (sym (utf8_of-ascii s h))
        ∙ utf8_to_ucs2-string (length s * 2 + 2) s [] (ascii_units s h) pos
            (omega (arith, ap length (utf8_of-ascii s h))) (omega arith)

module _ (attributes : ℕ) (dp s optional : List ℕ) where
  abbrev pub loadopt_size : ℕ
  loadopt_size = 6 + (length s * 2 + 2) + length dp + length optional

  abbrev pub loadopt_image : List ℕ → List (List ℕ)
  loadopt_image rest =
      le_bytes 4 attributes ∷ le_bytes 2 (length dp) ∷ name_bytes s ∷ dp ∷ optional ∷ rest ∷ []

  fill-blocks :
      (b0 b1 b2 b3 b4 rest : List ℕ)
      → length b0 ≡ 4
      → length b1 ≡ 2
      → length b2 ≡ 2 * length s + 2
      → length b3 ≡ length dp
      → length b4 ≡ length optional
      → All IsAscii s
      → 0 < length s
      → fill attributes dp
          (length dp)
          (length s * 2 + 2)
          s
          optional
          (concat (b0 ∷ b1 ∷ b2 ∷ b3 ∷ b4 ∷ rest ∷ []))
        ≡ ok (concat (loadopt_image rest))
  unfolding fill
  fill-blocks b0 b1 b2 b3 b4 rest p0 p1 p2 p3 p4 h pos =
      rw
        (store-block 0 [] b0 f0 (b1 ∷ b2 ∷ b3 ∷ b4 ∷ rest ∷ []) (unfold concat in refl)
          (omega (arith, l0)))
        (rw
          (store-block 4 (f0 ∷ []) b1 f1 (b2 ∷ b3 ∷ b4 ∷ rest ∷ [])
            (omega (arith, l0, length-concat (f0 ∷ []))) (omega (arith, l1)))
          (rw
            (write_description-block s (f0 ∷ f1 ∷ []) b2 (b3 ∷ b4 ∷ rest ∷ []) h pos
              (omega (arith, l0, l1, length-concat (f0 ∷ f1 ∷ []))) p2)
            (rw (load-all dp) (
              rw
                (store-block (6 + (length s * 2 + 2)) (f0 ∷ f1 ∷ name_bytes s ∷ []) b3 dp
                  (b4 ∷ rest ∷ [])
                  (omega (arith, l0, l1, ln, length-concat (f0 ∷ f1 ∷ name_bytes s ∷ [])))
                  (omega arith))
                (rw (
                  store-block (6 + (length s * 2 + 2) + length dp)
                    (f0 ∷ f1 ∷ name_bytes s ∷ dp ∷ []) b4 optional (rest ∷ [])
                    (omega (arith, l0, l1, ln, length-concat (f0 ∷ f1 ∷ name_bytes s ∷ dp ∷ [])))
                    (omega arith)))))))
    where
      f0 : List ℕ
      f0 = le_bytes 4 attributes

      f1 : List ℕ
      f1 = le_bytes 2 (length dp)

      l0 : length f0 ≡ 4
      l0 = length-le_bytes 4 attributes

      l1 : length f1 ≡ 2
      l1 = length-le_bytes 2 (length dp)

      ln : length (name_bytes s) ≡ 2 * length s + 2
      ln = length-name_bytes s

  parts : List ℕ
  parts = 4 ∷ 2 ∷ (2 * length s + 2) ∷ length dp ∷ length optional ∷ []

  fill_any :
      (buf : List ℕ)
      → All IsAscii s
      → 0 < length s
      → loadopt_size ≤ length buf
      → fill attributes dp (length dp) (length s * 2 + 2) s optional buf
        ≡ ok (concat (loadopt_image (drop loadopt_size buf)))
  unfolding pieces parts
  fill_any buf h pos room =
      let (p0, (p1, (p2, (p3, (p4, end))))) = sized in
      sym (
        ap (fill attributes dp (length dp) (length s * 2 + 2) s optional) (concat-pieces parts buf))
      ∙ fill-blocks _ _ _ _ _ (drop (sum parts) buf) p0 p1 p2 p3 p4 h pos
      ∙ ap (λ (k : ℕ). ok (concat (loadopt_image (drop k buf)))) (unfold parts in omega arith)
    where
      sized : Sized parts (pieces parts buf)
      sized = pieces-Sized parts buf (omega arith)

  attrs_fact :
      (rest : List ℕ)
      → attributes < 2 ^ 32
      → efi_loadopt_attrs (concat (loadopt_image rest)) ≡ ok attributes
  unfolding efi_loadopt_attrs
  attrs_fact rest lt =
      load_le-block 0 4 [] attributes
        (le_bytes 2 (length dp) ∷ name_bytes s ∷ dp ∷ optional ∷ rest ∷ []) (unfold concat in refl)
        (omega arith)

  pathlen_fact :
      (rest : List ℕ)
      → length dp < 2 ^ 16
      → efi_loadopt_pathlen (concat (loadopt_image rest)) loadopt_size ≡ ok (length dp)
  unfolding efi_loadopt_pathlen
  pathlen_fact rest lt = ground (
    arith,
    load_le-block 4 2 (le_bytes 4 attributes ∷ []) (length dp)
        (name_bytes s ∷ dp ∷ optional ∷ rest ∷ [])
        (omega (arith, length-le_bytes 4 attributes, length-concat (le_bytes 4 attributes ∷ [])))
        (omega arith),
  )

-- `efi_loadopt_create` with a description of ASCII characters, 1 to 1024 of them, and a device path whose first node is
-- of no end type and accepted by `efidp_is_valid`, of nodes that are not the end of the whole path,
-- whose lengths fit their headers. If the buffer has room, it writes the attributes, the length of the
-- path, the description, the path and the optional data to its front and nothing behind them, and returns their size;
-- `efi_loadopt_attrs` and `efi_loadopt_pathlen` read the attributes, of 32 bits, and the length of the path, of 16,
-- back.
pub efi_loadopt_create-image :
    (n : Node) (ns : List Node) (attributes turns : ℕ) (s optional buf : List ℕ)
    → All IsInner (n ∷ ns)
    → n.kind ≢ end_type
    → n.kind ≢ end_entire
    → accepts n.kind n.sub (4 + length n.body) ≡ true
    → length ns + 1 < turns
    → All IsAscii s
    → 0 < length s
    → length s ≤ 1024
    → attributes < 2 ^ 32
    → length (path (n ∷ ns)) < 2 ^ 16
    → loadopt_size attributes (path (n ∷ ns)) s optional ≤ length buf
    → (out : List ℕ) × (out
        ≡ concat (
            loadopt_image attributes
              (path (n ∷ ns))
              s
              optional
              (drop (loadopt_size attributes (path (n ∷ ns)) s optional) buf)))
      × (efi_loadopt_create turns buf attributes (path (n ∷ ns)) (length (path (n ∷ ns))) s optional
          ≡ some (
              ok
                (record { rc = loadopt_size attributes (path (n ∷ ns)) s optional; buffer = out })))
      × (efi_loadopt_attrs out ≡ ok attributes)
      × (efi_loadopt_pathlen out (loadopt_size attributes (path (n ∷ ns)) s optional)
          ≡ ok (length (path (n ∷ ns))))
unfolding efi_loadopt_create
efi_loadopt_create-image n ns attributes turns s optional buf inner ne nf good lt ascii pos bound
      a_fits p_fits room =
    let dp = path (n ∷ ns) in
    let rest = drop (loadopt_size attributes dp s optional) buf in
    (
      concat (loadopt_image attributes dp s optional rest),
      refl,
      rw (utf8len-ascii 1024 s [] ascii bound) (
          rw not_empty (
            rw fits_in (
              rw (check_path-path n ns inner ne nf good turns lt)
                (rw (fill_any attributes dp s optional buf ascii pos room))))),
      attrs_fact attributes dp s optional rest a_fits,
      pathlen_fact attributes dp s optional rest p_fits,
    )
  where
    not_empty : (length buf == 0) ≡ false
    not_empty = ground arith

    fits_in : ltb (length buf) (loadopt_size attributes (path (n ∷ ns)) s optional) ≡ false
    fits_in = ground arith
