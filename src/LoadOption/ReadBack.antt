-- ===== src/LoadOption/ReadBack.antt =====
-- src/loadopt.c: what the accessors read from the bytes that `efi_loadopt_create` leaves.
use efivar.Common.{
  ℕ, zero, suc, ◌+◌, ◌-◌, ◌*◌, ◌^◌, ◌≤◌, ◌<◌, ◌≡◌, ◌≢◌, refl, sym, ap, ◌∙◌, true, List, [], ◌∷◌,
  ◌++◌, length, drop, All, none, some, arith, append_assoc,
}
use efivar.Common.Outcome.{ok}
use efivar.Common.Memory.{
  le_bytes, load_le, concat, load_le-block, drop-front, length-concat, length-le_bytes,
}
use efivar.Ucs2.Lengths.{ucs2size-string, ucs2_to_utf8-eq}
use efivar.Ucs2.Ascii.{IsAscii, ascii_units, utf8_of-ascii}
use efivar.Variable.Import.{units_of}
use efivar.Variable.Image.{name_bytes, units_of-name_bytes, length-name_bytes}
use efivar.DevicePath.{end_type, end_entire, end_node, efidp_size}
use efivar.DevicePath.Layout.{Node, IsInner, encode, encode_all, path}
use efivar.DevicePath.Size.{efidp_size-path}
use efivar.DevicePath.Valid.{accepts, efidp_is_valid}
use efivar.DevicePath.Walk.{efidp_is_valid-accepted}
use efivar.LoadOption.Access.{
  description_size, path_sizes, efi_loadopt_optional_data_size, efi_loadopt_is_valid,
  efi_loadopt_path, efi_loadopt_optional_data, efi_loadopt_desc,
}
use efivar.LoadOption.{Created, efi_loadopt_create}
use efivar.LoadOption.Create.{
  loadopt_size, loadopt_image, path_size, first_node, efi_loadopt_create-image,
}

module _ (attributes : ℕ) (n : Node) (ns : List Node) (s optional rest : List ℕ)
    (inner : All IsInner (n ∷ ns)) (not_end : n.kind ≢ end_type) (not_entire : n.kind ≢ end_entire)
    (accepted : accepts n.kind n.sub (4 + length n.body) ≡ true) (ascii : All IsAscii s) where
  abbrev dp : List ℕ
  dp = path (n ∷ ns)

  abbrev opt : List ℕ
  opt = concat (loadopt_image attributes dp s optional rest)

  f0 : List (List ℕ)
  f0 = le_bytes 4 attributes ∷ le_bytes 2 (length dp) ∷ []

  length-f0 : length (concat f0) ≡ 6
  unfolding f0
  length-f0 =
      omega (arith, length-concat f0, length-le_bytes 4 attributes, length-le_bytes 2 (length dp))

  -- With a limit of at least the description's bytes, the description is the string and its NUL.
  description_fact :
      (limit : ℕ) → 2 * length s + 2 ≤ limit → description_size opt limit ≡ ok (2 * length s + 2)
  unfolding description_size f0 concat
  description_fact limit le =
      rw (drop-front 6 f0 (name_bytes s ∷ dp ∷ optional ∷ rest ∷ []) (sym length-f0)) (
        rw (units_of-name_bytes s (concat (dp ∷ optional ∷ rest ∷ []))) (
          ucs2size-string limit s (units_of (concat (dp ∷ optional ∷ rest ∷ [])))
            (ascii_units s ascii) le))

  path_fact : drop (6 + (2 * length s + 2)) opt ≡ dp ++ (optional ++ (rest ++ []))
  unfolding concat f0
  path_fact =
      drop-front (6 + (2 * length s + 2))
        (le_bytes 4 attributes ∷ le_bytes 2 (length dp) ∷ name_bytes s ∷ [])
        (dp ∷ optional ∷ rest ∷ [])
        (omega (
          arith,
          length-concat (le_bytes 4 attributes ∷ le_bytes 2 (length dp) ∷ name_bytes s ∷ []),
          length-le_bytes 4 attributes,
          length-le_bytes 2 (length dp),
          length-name_bytes s,
        ))

  length_fact : length dp < 2 ^ 16 → load_le 4 2 opt ≡ ok (length dp)
  length_fact lt =
      load_le-block 4 2 (le_bytes 4 attributes ∷ []) (length dp)
        (name_bytes s ∷ dp ∷ optional ∷ rest ∷ [])
        (omega (arith, length-le_bytes 4 attributes, length-concat (le_bytes 4 attributes ∷ [])))
        (omega arith)

  valid_fact :
      (turns : ℕ)
      → efidp_is_valid (suc turns) (drop (6 + (2 * length s + 2)) opt) (some (length dp))
        ≡ some (ok true)
  valid_fact turns =
      ap (λ (p : List ℕ). efidp_is_valid (suc turns) p (some (length dp)))
        (path_fact
          ∙ ap (λ (p : List ℕ). p ++ (optional ++ (rest ++ [])))
              (first_node n ns inner not_end not_entire accepted)
          ∙ append_assoc (encode n) (encode_all ns ++ end_node) (optional ++ (rest ++ [])))
      ∙ efidp_is_valid-accepted n turns (length dp)
          ((encode_all ns ++ end_node) ++ (optional ++ (rest ++ []))) inner.0 not_end accepted
          (path_size n ns inner not_end not_entire accepted)

  sizes_fact :
      (turns : ℕ)
      → length ns + 1 < turns
      → path_sizes (suc turns) (6 + (2 * length s + 2) + length dp) opt (6 + (2 * length s + 2))
        ≡ some (ok (6 + (2 * length s + 2) + length dp))
  unfolding path_sizes
  sizes_fact zero lt = absurd (omega arith)
  sizes_fact (suc turns) lt = ground (
    arith,
    length_pos,
    ap (efidp_size (suc turns)) path_fact
        ∙ efidp_size-path (n ∷ ns) (suc turns) (optional ++ (rest ++ [])) inner (omega arith),
  )
    where
      length_pos : 4 ≤ length dp
      length_pos = omega (arith, path_size n ns inner not_end not_entire accepted)

  desc_fact : efi_loadopt_desc opt none ≡ ok s
  unfolding efi_loadopt_desc f0 concat
  desc_fact = rw (drop-front 6 f0 (name_bytes s ∷ dp ∷ optional ∷ rest ∷ []) (sym length-f0)) (
      rw (units_of-name_bytes s (concat (dp ∷ optional ∷ rest ∷ []))) (
        ucs2_to_utf8-eq s (units_of (concat (dp ∷ optional ∷ rest ∷ []))) (ascii_units s ascii)
        ∙ ap ok (utf8_of-ascii s ascii)))

  abbrev size : ℕ
  size = loadopt_size attributes dp s optional

  is_path :
      (turns : ℕ)
      → length dp < 2 ^ 16
      → efi_loadopt_path (suc turns) opt size ≡ some (ok (some (6 + (2 * length s + 2))))
  unfolding efi_loadopt_path
  is_path turns fits =
      let pos = path_size n ns inner not_end not_entire accepted in
      ground (arith, description_fact (size - 6) (omega arith), length_fact fits, valid_fact turns)

  is_data :
      length dp < 2 ^ 16
      → efi_loadopt_optional_data opt size
        ≡ ok (6 + (2 * length s + 2) + length dp, length optional)
  unfolding efi_loadopt_optional_data
  is_data fits = ground (arith, description_fact (size - 6) (omega arith), length_fact fits)

  is_data_size :
      (turns : ℕ)
      → length ns + 1 < turns
      → length dp < 2 ^ 16
      → size < 2 ^ 63
      → efi_loadopt_optional_data_size (suc turns) opt size ≡ some (ok (length optional))
  unfolding efi_loadopt_optional_data_size
  is_data_size turns lt fits small =
      let left : ◌≡◌ {A = ℕ} (size - 6 - length dp) (2 * length s + 2 + length optional) =
        omega arith in
      ground (
        arith,
        left,
        description_fact (size - 6 - length dp) (omega arith),
        length_fact fits,
        valid_fact turns,
        sizes_fact turns lt,
      )

  is_valid :
      (turns : ℕ)
      → length ns + 1 < turns
      → length dp < 2 ^ 16
      → size < 2 ^ 63
      → efi_loadopt_is_valid (suc turns) opt size ≡ some (ok true)
  unfolding efi_loadopt_is_valid
  is_valid turns lt fits small = rw (is_data_size turns lt fits small, efi_loadopt_is_valid) refl

-- `efi_loadopt_create` with a description of ASCII characters, 1 to 1024 of them, and a device path whose first node
-- is of no end type and accepted by `efidp_is_valid`, of nodes that are not the end of the whole path, whose lengths
-- fit their headers, in a buffer of less than 2 ^ 63 bytes that has room: it succeeds. With the size it returned as
-- their limit, and a turn for each node and two more, the accessors find its parts again: `efi_loadopt_path` returns
-- the place of the path, `efi_loadopt_optional_data` the place behind it and the length of the optional data,
-- `efi_loadopt_optional_data_size` that length, `efi_loadopt_is_valid` true, and `efi_loadopt_desc` without a limit
-- the description. The attributes have 32 bits and the length of the path 16.
pub efi_loadopt_create-read_back :
    (n : Node) (ns : List Node) (attributes turns : ℕ) (s optional buf : List ℕ)
    → All IsInner (n ∷ ns)
    → n.kind ≢ end_type
    → n.kind ≢ end_entire
    → accepts n.kind n.sub (4 + length n.body) ≡ true
    → length ns + 1 < turns
    → All IsAscii s
    → 0 < length s
    → length s ≤ 1024
    → attributes < 2 ^ 32
    → length (path (n ∷ ns)) < 2 ^ 16
    → loadopt_size attributes (path (n ∷ ns)) s optional ≤ length buf
    → length buf < 2 ^ 63
    → (made : Created) × (efi_loadopt_create
          (suc turns)
          buf
          attributes
          (path (n ∷ ns))
          (length (path (n ∷ ns)))
          s
          optional
        ≡ some (ok made))
      × (efi_loadopt_path (suc turns) made.buffer made.rc
          ≡ some (ok (some (6 + (2 * length s + 2)))))
      × (efi_loadopt_optional_data made.buffer made.rc
          ≡ ok (6 + (2 * length s + 2) + length (path (n ∷ ns)), length optional))
      × (efi_loadopt_optional_data_size (suc turns) made.buffer made.rc
          ≡ some (ok (length optional)))
      × (efi_loadopt_is_valid (suc turns) made.buffer made.rc ≡ some (ok true))
      × (efi_loadopt_desc made.buffer none ≡ ok s)
efi_loadopt_create-read_back n ns attributes turns s optional buf inner ne nf good lt ascii pos
      bound a_fits p_fits room small =
    let rest = drop (loadopt_size attributes (path (n ∷ ns)) s optional) buf in
    let (out, same, made, _, _) =
      efi_loadopt_create-image n ns attributes (suc turns) s optional buf inner ne nf good
        (omega arith) ascii pos bound a_fits p_fits room in
    (
      record {
        rc = loadopt_size attributes (path (n ∷ ns)) s optional;
        buffer = concat (loadopt_image attributes (path (n ∷ ns)) s optional rest);
      },
      made
          ∙ ap
              (λ (b : List ℕ).
                some (
                  ok
                    record { rc = loadopt_size attributes (path (n ∷ ns)) s optional; buffer = b }))
              same,
      is_path attributes n ns s optional rest inner ne nf good ascii turns p_fits,
      is_data attributes n ns s optional rest inner ne nf good ascii p_fits,
      is_data_size attributes n ns s optional rest inner ne nf good ascii turns lt p_fits
          (omega arith),
      is_valid attributes n ns s optional rest inner ne nf good ascii turns lt p_fits (omega arith),
      desc_fact attributes n ns s optional rest inner ne nf good ascii,
    )
