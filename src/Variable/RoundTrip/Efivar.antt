-- ===== src/Variable/RoundTrip/Efivar.antt =====
-- src/export.c: import behind export, in the library's own format.
use efivar.Common.{
  ℕ, ◌+◌, ◌*◌, ◌^◌, ◌≤◌, ◌<◌, ◌≡◌, refl, sym, ap, ◌∙◌, List, [], ◌∷◌, ◌++◌, length, take, drop, All,
  some, arith, append_assoc, append-nil, All-append, length-append, length-take, drop-all,
}
use efivar.Common.Words.{IsByte}
use efivar.Common.Outcome.{err, einval, ok}
use efivar.Common.Memory.{
  le_bytes, le_bytes-All, load, load_le, concat, load_le-block, load-block, length-le_bytes,
  length-concat, take-drop-append, concat-append,
}
use efivar.Crc32.{efi_crc32}
use efivar.Guid.{Guid}
use efivar.Guid.Text.{IsGuid}
use efivar.Guid.Layout.{guid_bytes, length-guid_bytes, guid_bytes-All, guid_of_bytes-guid_bytes}
use efivar.Ucs2.Lengths.{utf8_of}
use efivar.Ucs2.Ascii.{IsAscii, ascii_units, utf8_of-ascii}
use efivar.Variable.Export.{efi_variable_export, efivar_magic}
use efivar.Variable.Import.{
  efi_variable_import, read_efivar, check_crc, units_of, low_bytes, c_string, minus64,
  efi_variable_import_efivar,
}
use efivar.Variable.Image.{
  name_bytes, length-name_bytes, units_of-name_bytes, name_bytes-All, check_crc-block,
}
use efivar.Variable.Image.Dmpstore.{whole}
use efivar.Variable.Image.Efivar.{
  efivar_needed, efivar_head, efivar_fields, efivar_image, efivar_head_size, efivar_size,
  efi_variable_export-image,
}

-- The name as the loop over 16-bit units finds it, whatever stands behind its NUL.
c_string-low_bytes : (s rest : List ℕ) → All IsAscii s → c_string (low_bytes (s ++ (0 ∷ rest))) ≡ s
unfolding c_string low_bytes
c_string-low_bytes [] rest h = refl
c_string-low_bytes (c ∷ s) rest h = ground (arith, c_string-low_bytes s rest h.1)

split_block :
    (k : ℕ) (front : List (List ℕ)) (mid : List ℕ) (back : List (List ℕ))
    → concat (front ++ (mid ∷ back))
      ≡ concat (front ++ ((mid ++ take k (concat back)) ∷ drop k (concat back) ∷ []))
unfolding concat
split_block k front mid back = ground (
  arith,
  concat-append front (mid ∷ back),
  concat-append front ((mid ++ take k (concat back)) ∷ drop k (concat back) ∷ []),
  append_assoc mid (take k (concat back)) (drop k (concat back)),
  append-nil (drop k (concat back)),
  take-drop-append k (concat back),
)

-- A read that goes on `k` bytes into what follows a block.
load-over :
    (at n k : ℕ) (front : List (List ℕ)) (mid : List ℕ) (back : List (List ℕ))
    → at ≡ length (concat front)
    → n ≡ length mid + k
    → k ≤ length (concat back)
    → load at n (concat (front ++ (mid ∷ back))) ≡ ok (mid ++ take k (concat back))
load-over at n k front mid back p q r =
    ap (load at n) (split_block k front mid back)
    ∙ load-block at n front (mid ++ take k (concat back)) (drop k (concat back) ∷ []) p
        (omega (arith, length-append mid (take k (concat back)), length-take k (concat back)))

image_size :
    (attrs : ℕ) (guid : Guid) (s contents : List ℕ)
    → length (concat (efivar_image attrs guid s contents [])) ≡ efivar_needed attrs guid s contents
image_size attrs guid s contents = omega (
  arith,
  length-le_bytes 4 (efi_crc32 (concat (efivar_fields attrs guid s contents))),
  efivar_size attrs guid s contents,
  length-concat (efivar_fields attrs guid s contents),
  length-concat (efivar_image attrs guid s contents []),
)

module _ (attrs : ℕ) (guid : Guid) (s contents : List ℕ) (attrs_fit : attrs < 2 ^ 64)
    (guid_fits : IsGuid guid) (ascii : All IsAscii s)
    (large : 51 < efivar_needed attrs guid s contents)
    (covered : 2 * length s ≤ length contents + 2) (filled : 0 < length contents)
    (bytes : All IsByte contents) (small : efivar_needed attrs guid s contents < 2 ^ 31) where
  abbrev m0 : List ℕ
  m0 = le_bytes 4 efivar_magic

  abbrev m1 : List ℕ
  m1 = le_bytes 4 1

  abbrev m2 : List ℕ
  m2 = le_bytes 8 attrs

  abbrev m3 : List ℕ
  m3 = guid_bytes guid

  abbrev m4 : List ℕ
  m4 = le_bytes 4 (2 * length s + 2)

  abbrev m5 : List ℕ
  m5 = le_bytes 4 (length contents)

  abbrev head : List (List ℕ)
  head = efivar_head attrs guid s contents

  abbrev crc : List ℕ
  crc = le_bytes 4 (efi_crc32 (concat (efivar_fields attrs guid s contents)))

  abbrev image : List ℕ
  image = concat (efivar_image attrs guid s contents [])

  l0 : length m0 ≡ 4
  l0 = length-le_bytes 4 efivar_magic

  l1 : length m1 ≡ 4
  l1 = length-le_bytes 4 1

  l2 : length m2 ≡ 8
  l2 = length-le_bytes 8 attrs

  l3 : length m3 ≡ 16
  l3 = length-guid_bytes guid

  l4 : length m4 ≡ 4
  l4 = length-le_bytes 4 (2 * length s + 2)

  lc : length crc ≡ 4
  lc = length-le_bytes 4 _

  fields-All : All IsByte (concat (efivar_fields attrs guid s contents))
  unfolding concat
  fields-All = All-append IsByte m0 _ (le_bytes-All 4 efivar_magic) (
      All-append IsByte m1 _ (le_bytes-All 4 1) (
        All-append IsByte m2 _ (le_bytes-All 8 attrs) (
          All-append IsByte m3 _ (guid_bytes-All guid guid_fits) (
            All-append IsByte m4 _ (le_bytes-All 4 (2 * length s + 2)) (
              All-append IsByte m5 _ (le_bytes-All 4 (length contents)) (
                All-append IsByte (name_bytes s) _ (name_bytes-All s (ascii_units s ascii))
                  (All-append IsByte contents [] bytes tt)))))))

  magic_fact : load_le 0 4 image ≡ ok efivar_magic
  magic_fact =
      load_le-block 0 4 [] efivar_magic
        (m1 ∷ m2 ∷ m3 ∷ m4 ∷ m5 ∷ name_bytes s ∷ contents ∷ crc ∷ [] ∷ []) (unfold concat in refl)
        (omega arith)

  version_fact : load_le 4 4 image ≡ ok 1
  version_fact =
      load_le-block 4 4 (m0 ∷ []) 1 (m2 ∷ m3 ∷ m4 ∷ m5 ∷ name_bytes s ∷ contents ∷ crc ∷ [] ∷ [])
        (omega (arith, l0, length-concat (m0 ∷ []))) (omega arith)

  attrs_fact : load_le 8 8 image ≡ ok attrs
  attrs_fact =
      load_le-block 8 8 (m0 ∷ m1 ∷ []) attrs
        (m3 ∷ m4 ∷ m5 ∷ name_bytes s ∷ contents ∷ crc ∷ [] ∷ [])
        (omega (arith, l0, l1, length-concat (m0 ∷ m1 ∷ []))) attrs_fit

  guid_fact : load 16 16 image ≡ ok (guid_bytes guid)
  guid_fact =
      load-block 16 16 (m0 ∷ m1 ∷ m2 ∷ []) m3 (m4 ∷ m5 ∷ name_bytes s ∷ contents ∷ crc ∷ [] ∷ [])
        (omega (arith, l0, l1, l2, length-concat (m0 ∷ m1 ∷ m2 ∷ []))) (omega (arith, l3))

  name_len_fact : load_le 32 4 image ≡ ok (2 * length s + 2)
  name_len_fact =
      load_le-block 32 4 (m0 ∷ m1 ∷ m2 ∷ m3 ∷ []) (2 * length s + 2)
        (m5 ∷ name_bytes s ∷ contents ∷ crc ∷ [] ∷ [])
        (omega (arith, l0, l1, l2, l3, length-concat (m0 ∷ m1 ∷ m2 ∷ m3 ∷ []))) (omega arith)

  data_len_fact : load_le 36 4 image ≡ ok (length contents)
  data_len_fact =
      load_le-block 36 4 (m0 ∷ m1 ∷ m2 ∷ m3 ∷ m4 ∷ []) (length contents)
        (name_bytes s ∷ contents ∷ crc ∷ [] ∷ [])
        (omega (arith, l0, l1, l2, l3, l4, length-concat (m0 ∷ m1 ∷ m2 ∷ m3 ∷ m4 ∷ [])))
        (omega arith)

  contents_fact : load (40 + (2 * length s + 2)) (length contents) image ≡ ok contents
  contents_fact =
      load-block _ _ (head ++ (name_bytes s ∷ [])) contents (crc ∷ [] ∷ [])
        (omega (
          arith,
          efivar_size attrs guid s contents,
          length-concat (efivar_fields attrs guid s contents),
          length-concat (head ++ (name_bytes s ∷ [])),
        ))
        refl

  crc_fact : check_crc (efivar_needed attrs guid s contents) image ≡ ok tt
  crc_fact =
      check_crc-block (efivar_needed attrs guid s contents) (efivar_fields attrs guid s contents)
        ([] ∷ []) fields-All (omega (arith, efivar_size attrs guid s contents))

  abbrev behind : List ℕ
  behind = take (2 * length s + 2) (concat (contents ∷ crc ∷ [] ∷ []))

  wname_fact : load 40 (2 * (2 * length s + 2)) image ≡ ok (name_bytes s ++ behind)
  wname_fact =
      load-over 40 _ (2 * length s + 2) head (name_bytes s) (contents ∷ crc ∷ [] ∷ [])
        (omega (arith, efivar_head_size attrs guid s contents)) (omega (arith, length-name_bytes s))
        (omega (arith, lc, length-concat (contents ∷ crc ∷ [] ∷ [])))

  name_fact : c_string (low_bytes (units_of (name_bytes s ++ behind))) ≡ utf8_of s
  name_fact =
      rw (units_of-name_bytes s behind)
        (c_string-low_bytes s (units_of behind) ascii ∙ sym (utf8_of-ascii s ascii))

  rc_fact : 48 + (2 * length s + 2) + length contents ≡ efivar_needed attrs guid s contents + 4
  rc_fact = omega arith

  read-image :
      read_efivar attrs (2 * length s + 2) (length contents) (guid_bytes guid) image
      ≡ ok (record {
        rc = efivar_needed attrs guid s contents + 4;
        var = whole attrs guid s contents;
      })
  unfolding read_efivar
  read-image = rw wname_fact (
      rw contents_fact (
        rw (guid_of_bytes-guid_bytes guid guid_fits) (
          rw name_fact
            (ap (λ (k : ℕ). ok (record { rc = k; var = whole attrs guid s contents })) rc_fact))))

  import-image :
      efi_variable_import_efivar image
      ≡ ok (record {
        rc = efivar_needed attrs guid s contents + 4;
        var = whole attrs guid s contents;
      })
  unfolding efi_variable_import_efivar minus64
  import-image = ground (
    arith,
    image_size attrs guid s contents,
    magic_fact,
    version_fact,
    attrs_fact,
    guid_fact,
    name_len_fact,
    data_len_fact,
    crc_fact,
    read-image,
  )

  import_any :
      efi_variable_import image
      ≡ ok (record {
        rc = efivar_needed attrs guid s contents + 4;
        var = whole attrs guid s contents;
      })
  unfolding efi_variable_import
  import_any = ground (arith, import-image)

export_exact :
    (attrs : ℕ) (guid : Guid) (s contents buf : List ℕ)
    → All IsAscii s
    → 0 < length s
    → efivar_needed attrs guid s contents < 2 ^ 31
    → length buf ≡ efivar_needed attrs guid s contents
    → efi_variable_export (whole attrs guid s contents) (some buf)
      ≡ ok (record {
        rc = efivar_needed attrs guid s contents;
        buffer = concat (efivar_image attrs guid s contents []);
      })
export_exact attrs guid s contents buf hs named small exact =
    efi_variable_export-image attrs guid s contents buf (ascii_units s hs) named small (omega arith)
      (omega (arith, ap length (utf8_of-ascii s hs)))
    ∙ ap
        (λ (r : List ℕ). ok (record {
          rc = efivar_needed attrs guid s contents;
          buffer = concat (efivar_image attrs guid s contents r);
        }))
        (ap (λ (k : ℕ). drop k buf) (sym exact) ∙ drop-all buf)

-- What `efi_variable_export` writes for a variable to a buffer of just the size needed,
-- `efi_variable_import` reads back as the same variable, and it returns 4 more than the size of the
-- export. The variable has attributes of 64 bits, a GUID whose fields keep to their widths, a name of at least one ASCII character and at least one
-- byte of data; the export has more than 51 and less than 2^31 bytes, and twice the length of the name is at most
-- two more than that of the data.
pub import-export_efivar :
    (attrs : ℕ) (guid : Guid) (s contents buf : List ℕ)
    → attrs < 2 ^ 64
    → IsGuid guid
    → All IsAscii s
    → 0 < length s
    → 0 < length contents
    → All IsByte contents
    → 51 < efivar_needed attrs guid s contents
    → efivar_needed attrs guid s contents < 2 ^ 31
    → 2 * length s ≤ length contents + 2
    → length buf ≡ efivar_needed attrs guid s contents
    → (out : List ℕ) × (efi_variable_export (whole attrs guid s contents) (some buf)
        ≡ ok (record { rc = efivar_needed attrs guid s contents; buffer = out }))
      × (efi_variable_import out
          ≡ ok (record {
            rc = efivar_needed attrs guid s contents + 4;
            var = whole attrs guid s contents;
          }))
import-export_efivar attrs guid s contents buf ha hg hs named filled hb large small covered exact =
    (
      concat (efivar_image attrs guid s contents []),
      export_exact attrs guid s contents buf hs named small exact,
      import_any attrs guid s contents ha hg hs large covered filled hb small,
    )

-- A small export cannot be read back: if the export of such a variable with a name of ASCII characters has at most 51
-- bytes, `efi_variable_export` succeeds and `efi_variable_import_efivar` refuses what it wrote with EINVAL.
pub import-export_efivar_small :
    (attrs : ℕ) (guid : Guid) (s contents buf : List ℕ)
    → All IsAscii s
    → 0 < length s
    → efivar_needed attrs guid s contents ≤ 51
    → length buf ≡ efivar_needed attrs guid s contents
    → (out : List ℕ) × (efi_variable_export (whole attrs guid s contents) (some buf)
        ≡ ok (record { rc = efivar_needed attrs guid s contents; buffer = out }))
      × (efi_variable_import_efivar out ≡ err einval)
unfolding efi_variable_import_efivar
import-export_efivar_small attrs guid s contents buf hs named tiny exact = (
  concat (efivar_image attrs guid s contents []),
  export_exact attrs guid s contents buf hs named (omega arith) exact,
  ground (arith, image_size attrs guid s contents),
)
