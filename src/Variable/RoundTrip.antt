-- ===== src/Variable/RoundTrip.antt =====
-- src/export.c: import behind export, in the format of dmpstore.
pub mod Efivar
use efivar.Common.{
  ℕ, ◌+◌, ◌-◌, ◌*◌, ◌^◌, ◌≤◌, ◌<◌, ◌≡◌, refl, ap, ◌∙◌, List, [], ◌∷◌, ◌++◌, length, drop, All, some,
  none, arith, append_assoc, All-append,
}
use efivar.Common.Words.{IsByte}
use efivar.Common.Outcome.{err, einval, ok}
use efivar.Common.Memory.{
  le_bytes, le_bytes-All, load, load_le, concat, load_le-block, load-block, drop-front,
  length-le_bytes, length-concat,
}
use efivar.Crc32.{efi_crc32}
use efivar.Guid.{Guid}
use efivar.Guid.Text.{IsGuid}
use efivar.Guid.Layout.{guid_bytes, length-guid_bytes, guid_bytes-All, guid_of_bytes-guid_bytes}
use efivar.Ucs2.{ucs2_to_utf8}
use efivar.Ucs2.Lengths.{IsUnit, utf8_of, ucs2_to_utf8-eq}
use efivar.Variable.Export.{efi_variable_export_dmpstore, unit_bytes}
use efivar.Variable.Import.{
  efi_variable_import, efi_variable_import_efivar, read_dmpstore, check_crc, units_of,
  efi_variable_import_dmpstore,
}
use efivar.Variable.Image.{
  name_bytes, length-name_bytes, units_of-name_bytes, name_bytes-All, name_bytes-end,
  length-unit_bytes, check_crc-block,
}
use efivar.Variable.Image.Dmpstore.{
  whole, dmpstore_needed, dmpstore_fields, dmpstore_image, dmpstore_size,
  efi_variable_export_dmpstore-image,
}

split_zeros :
    (a b u : List ℕ) (t : List (List ℕ))
    → concat (a ∷ b ∷ (u ++ (0 ∷ 0 ∷ [])) ∷ t)
      ≡ concat (a ∷ b ∷ u ∷ le_bytes 1 0 ∷ le_bytes 1 0 ∷ t)
unfolding concat le_bytes
split_zeros a b u t = ap (λ (c : List ℕ). a ++ (b ++ c)) (append_assoc u (0 ∷ 0 ∷ []) (concat t))

module _ (attrs : ℕ) (guid : Guid) (s contents : List ℕ) (attrs_fit : attrs < 2 ^ 32)
    (guid_fits : IsGuid guid) (units : All IsUnit s) (named : 0 < length s)
    (filled : 0 < length contents) (bytes : All IsByte contents)
    (small : dmpstore_needed attrs guid s contents < 2 ^ 31) where
  abbrev f0 : List ℕ
  f0 = le_bytes 4 (2 * length s + 2)

  abbrev f1 : List ℕ
  f1 = le_bytes 4 (length contents)

  abbrev f4 : List ℕ
  f4 = le_bytes 4 attrs

  l0 : length f0 ≡ 4
  l0 = length-le_bytes 4 (2 * length s + 2)

  l1 : length f1 ≡ 4
  l1 = length-le_bytes 4 (length contents)

  l4 : length f4 ≡ 4
  l4 = length-le_bytes 4 attrs

  ln : length (name_bytes s) ≡ 2 * length s + 2
  ln = length-name_bytes s

  lg : length (guid_bytes guid) ≡ 16
  lg = length-guid_bytes guid

  fields-All : All IsByte (concat (dmpstore_fields attrs guid s contents))
  unfolding concat
  fields-All = All-append IsByte f0 _ (le_bytes-All 4 (2 * length s + 2)) (
      All-append IsByte f1 _ (le_bytes-All 4 (length contents)) (
        All-append IsByte (name_bytes s) _ (name_bytes-All s units) (
          All-append IsByte (guid_bytes guid) _ (guid_bytes-All guid guid_fits) (
            All-append IsByte f4 _ (le_bytes-All 4 attrs)
              (All-append IsByte contents [] bytes tt)))))

  module _ (rest : List ℕ) where
    abbrev crc : List ℕ
    crc = le_bytes 4 (efi_crc32 (concat (dmpstore_fields attrs guid s contents)))

    abbrev image : List ℕ
    image = concat (dmpstore_image attrs guid s contents rest)

    abbrev tail : List (List ℕ)
    tail = guid_bytes guid ∷ f4 ∷ contents ∷ crc ∷ rest ∷ []

    name_units : units_of (concat (name_bytes s ∷ tail)) ≡ s ++ (0 ∷ units_of (concat tail))
    name_units = unfold concat in units_of-name_bytes s (concat tail)

    name_fact : ucs2_to_utf8 (units_of (drop 8 image)) none ≡ ok (utf8_of s)
    name_fact =
        ap (λ (b : List ℕ). ucs2_to_utf8 (units_of b) none)
          (drop-front 8 (f0 ∷ f1 ∷ []) (name_bytes s ∷ tail)
            (omega (arith, l0, l1, length-concat (f0 ∷ f1 ∷ []))))
        ∙ ap (λ (u : List ℕ). ucs2_to_utf8 u none) name_units
        ∙ ucs2_to_utf8-eq s (units_of (concat tail)) units

    guid_fact : load (8 + (2 * length s + 2)) 16 image ≡ ok (guid_bytes guid)
    guid_fact =
        load-block _ 16 (f0 ∷ f1 ∷ name_bytes s ∷ []) (guid_bytes guid)
          (f4 ∷ contents ∷ crc ∷ rest ∷ [])
          (omega (arith, l0, l1, ln, length-concat (f0 ∷ f1 ∷ name_bytes s ∷ [])))
          (omega (arith, lg))

    attrs_fact : load_le (24 + (2 * length s + 2)) 4 image ≡ ok attrs
    attrs_fact =
        load_le-block _ 4 (f0 ∷ f1 ∷ name_bytes s ∷ guid_bytes guid ∷ []) attrs
          (contents ∷ crc ∷ rest ∷ [])
          (omega
            (arith, l0, l1, ln, lg, length-concat (f0 ∷ f1 ∷ name_bytes s ∷ guid_bytes guid ∷ [])))
          attrs_fit

    contents_fact : load (28 + (2 * length s + 2)) (length contents) image ≡ ok contents
    contents_fact =
        load-block _ _ (f0 ∷ f1 ∷ name_bytes s ∷ guid_bytes guid ∷ f4 ∷ []) contents
          (crc ∷ rest ∷ [])
          (omega (
            arith,
            l0,
            l1,
            ln,
            lg,
            l4,
            length-concat (f0 ∷ f1 ∷ name_bytes s ∷ guid_bytes guid ∷ f4 ∷ []),
          ))
          refl

    namesz_fact : load_le 0 4 image ≡ ok (2 * length s + 2)
    namesz_fact =
        load_le-block 0 4 [] (2 * length s + 2) (f1 ∷ name_bytes s ∷ tail) (unfold concat in refl)
          (omega arith)

    datasz_fact : load_le 4 4 image ≡ ok (length contents)
    datasz_fact =
        load_le-block 4 4 (f0 ∷ []) (length contents) (name_bytes s ∷ tail)
          (omega (arith, l0, length-concat (f0 ∷ []))) (omega arith)

    -- The two bytes at the name's end as blocks of their own.
    split_name : image ≡ concat (f0 ∷ f1 ∷ unit_bytes s ∷ le_bytes 1 0 ∷ le_bytes 1 0 ∷ tail)
    split_name =
        ap (λ (n : List ℕ). concat (f0 ∷ f1 ∷ n ∷ tail)) (name_bytes-end s)
        ∙ split_zeros f0 f1 (unit_bytes s) tail

    before_fact : load_le (8 + (2 * length s + 2) - 2) 1 image ≡ ok 0
    before_fact =
        ap (load_le (8 + (2 * length s + 2) - 2) 1) split_name
        ∙ load_le-block _ 1 (f0 ∷ f1 ∷ unit_bytes s ∷ []) 0 (le_bytes 1 0 ∷ tail)
            (omega
              (arith, l0, l1, length-unit_bytes s, length-concat (f0 ∷ f1 ∷ unit_bytes s ∷ [])))
            (omega arith)

    last_fact : load_le (8 + (2 * length s + 2) - 1) 1 image ≡ ok 0
    last_fact =
        ap (load_le (8 + (2 * length s + 2) - 1) 1) split_name
        ∙ load_le-block _ 1 (f0 ∷ f1 ∷ unit_bytes s ∷ le_bytes 1 0 ∷ []) 0 tail
            (omega (
              arith,
              l0,
              l1,
              length-unit_bytes s,
              length-le_bytes 1 0,
              length-concat (f0 ∷ f1 ∷ unit_bytes s ∷ le_bytes 1 0 ∷ []),
            ))
            (omega arith)

    crc_fact : check_crc (dmpstore_needed attrs guid s contents) image ≡ ok tt
    crc_fact =
        check_crc-block (dmpstore_needed attrs guid s contents)
          (dmpstore_fields attrs guid s contents) (rest ∷ []) fields-All
          (omega (arith, dmpstore_size attrs guid s contents))

    image_size : length image ≡ dmpstore_needed attrs guid s contents + length rest
    image_size = omega (
      arith,
      l0,
      l1,
      l4,
      ln,
      lg,
      length-le_bytes 4 (efi_crc32 (concat (dmpstore_fields attrs guid s contents))),
      length-concat (dmpstore_image attrs guid s contents rest),
    )

    read-image :
        read_dmpstore
          (2 * length s + 2)
          (length contents)
          (dmpstore_needed attrs guid s contents)
          image
        ≡ ok (record {
          rc = dmpstore_needed attrs guid s contents;
          var = whole attrs guid s contents;
        })
    unfolding read_dmpstore
    read-image = rw name_fact (
        rw guid_fact
          (rw attrs_fact (rw contents_fact (rw (guid_of_bytes-guid_bytes guid guid_fits)))))

    import-image :
        efi_variable_import_dmpstore image
        ≡ ok (record {
          rc = dmpstore_needed attrs guid s contents;
          var = whole attrs guid s contents;
        })
    unfolding efi_variable_import_dmpstore
    import-image =
        ground (
          arith, image_size, namesz_fact, datasz_fact, last_fact, before_fact, crc_fact, read-image,
        )

    not_efivar : efi_variable_import_efivar image ≡ err einval
    unfolding efi_variable_import_efivar
    not_efivar = ground (arith, image_size, namesz_fact)

    import_any :
        efi_variable_import image
        ≡ ok (record {
          rc = dmpstore_needed attrs guid s contents;
          var = whole attrs guid s contents;
        })
    unfolding efi_variable_import
    import_any = ground (arith, not_efivar, import-image)

-- What `efi_variable_export_dmpstore` writes for a variable, `efi_variable_import` reads back as
-- the same variable, and both return the size of the export, also when more bytes follow it. The
-- variable has attributes of 32 bits, a GUID whose fields keep to their widths, a name of at least one character that is the UTF-8 of 16-bit units, and at
-- least one byte of data; the export has less than 2^31 bytes, the buffer has room for it, and the name has at most
-- as many bytes of UTF-8 as the buffer behind its first 8 bytes.
pub import-export_dmpstore :
    (attrs : ℕ) (guid : Guid) (s contents buf : List ℕ)
    → attrs < 2 ^ 32
    → IsGuid guid
    → All IsUnit s
    → 0 < length s
    → 0 < length contents
    → All IsByte contents
    → dmpstore_needed attrs guid s contents < 2 ^ 31
    → dmpstore_needed attrs guid s contents ≤ length buf
    → length (utf8_of s) ≤ length buf - 8
    → (out : List ℕ) × (efi_variable_export_dmpstore (whole attrs guid s contents) (some buf)
        ≡ ok (record { rc = dmpstore_needed attrs guid s contents; buffer = out }))
      × (efi_variable_import out
          ≡ ok (record {
            rc = dmpstore_needed attrs guid s contents;
            var = whole attrs guid s contents;
          }))
import-export_dmpstore attrs guid s contents buf ha hg hs named filled hb small room fits =
    let rest = drop (dmpstore_needed attrs guid s contents) buf in
    (
      concat (dmpstore_image attrs guid s contents rest),
      efi_variable_export_dmpstore-image attrs guid s contents buf hs named small room fits,
      import_any attrs guid s contents ha hg hs named filled hb small rest,
    )
