-- ===== src/Variable/Image/Efivar.antt =====
-- src/export.c: the bytes of `efi_variable_export`.
use efivar.Common.{
  ◌==◌, false, ℕ, ◌+◌, ◌-◌, ◌*◌, ◌^◌, ◌≤◌, ◌<◌, ◌≡◌, refl, sym, ap, ◌∙◌, List, [], ◌∷◌, ◌++◌,
  length, drop, All, some, arith, length-drop, ltb,
}
use efivar.Common.Outcome.{ok}
use efivar.Common.Memory.{
  pieces, sum, Sized, pieces-Sized, concat-pieces, length-concat, le_bytes, concat, store-block,
  load-all, length-le_bytes,
}
use efivar.Crc32.{efi_crc32}
use efivar.Guid.{Guid}
use efivar.Guid.Layout.{guid_bytes, length-guid_bytes}
use efivar.Ucs2.Lengths.{IsUnit, utf8_of}
use efivar.Variable.{Variable}
use efivar.Variable.Export.{
  checked_name, checked_data, fill_efivar, efi_variable_export, efivar_magic,
}
use efivar.Variable.Image.{
  name_bytes, length-name_bytes, sizes-string, write_name-block, write_crc-block,
}
use efivar.Variable.Image.Dmpstore.{whole}

module _ (attrs : ℕ) (guid : Guid) (s contents : List ℕ) where
  abbrev var : Variable
  var = whole attrs guid s contents

  abbrev pub efivar_needed : ℕ
  efivar_needed = 44 + (2 * length s + 2) + length contents

  -- What stands before the name.
  abbrev pub efivar_head : List (List ℕ)
  efivar_head =
      le_bytes 4 efivar_magic
      ∷ le_bytes 4 1
      ∷ le_bytes 8 attrs
      ∷ guid_bytes guid
      ∷ le_bytes 4 (2 * length s + 2)
      ∷ le_bytes 4 (length contents)
      ∷ []

  -- The fields in their order, without the CRC.
  abbrev pub efivar_fields : List (List ℕ)
  efivar_fields = efivar_head ++ (name_bytes s ∷ contents ∷ [])

  abbrev pub efivar_image : List ℕ → List (List ℕ)
  efivar_image rest = efivar_fields ++ (le_bytes 4 (efi_crc32 (concat efivar_fields)) ∷ rest ∷ [])

  pub efivar_head_size : length (concat efivar_head) ≡ 40
  efivar_head_size = omega (
    arith,
    length-concat efivar_head,
    length-le_bytes 4 efivar_magic,
    length-le_bytes 4 1,
    length-le_bytes 8 attrs,
    length-guid_bytes guid,
    length-le_bytes 4 (2 * length s + 2),
    length-le_bytes 4 (length contents),
  )

  pub efivar_size : length (concat efivar_fields) ≡ 42 + 2 * length s + length contents
  efivar_size = omega (
    arith,
    length-concat efivar_fields,
    length-concat efivar_head,
    efivar_head_size,
    length-name_bytes s,
  )

  module _ (b0 b1 b2 b3 b4 b5 b6 b7 b8 rest : List ℕ) (p0 : length b0 ≡ 4) (p1 : length b1 ≡ 4)
      (p2 : length b2 ≡ 8) (p3 : length b3 ≡ 16) (p4 : length b4 ≡ 4) (p5 : length b5 ≡ 4)
      (p6 : length b6 ≡ 2 * length s + 2) (p7 : length b7 ≡ length contents) (p8 : length b8 ≡ 4)
      (h : All IsUnit s) (pos : 0 < length s) (small : efivar_needed < 2 ^ 31)
      (fits : length (utf8_of s) ≤ 38 + 2 * length s + length contents + length rest) where
    abbrev m0 : List ℕ
    m0 = le_bytes 4 efivar_magic

    abbrev m1 : List ℕ
    m1 = le_bytes 4 1

    abbrev m2 : List ℕ
    m2 = le_bytes 8 attrs

    abbrev m3 : List ℕ
    m3 = guid_bytes guid

    abbrev m4 : List ℕ
    m4 = le_bytes 4 (2 * length s + 2)

    abbrev m5 : List ℕ
    m5 = le_bytes 4 (length contents)

    fill-blocks :
        fill_efivar var
          (utf8_of s)
          contents
          (2 * length s + 2)
          efivar_needed
          (concat (b0 ∷ b1 ∷ b2 ∷ b3 ∷ b4 ∷ b5 ∷ b6 ∷ b7 ∷ b8 ∷ rest ∷ []))
        ≡ ok (record { rc = efivar_needed; buffer = concat (efivar_image rest) })
    unfolding fill_efivar
    fill-blocks =
        rw
          (store-block 0 [] b0 m0 (b1 ∷ b2 ∷ b3 ∷ b4 ∷ b5 ∷ b6 ∷ b7 ∷ b8 ∷ rest ∷ [])
            (unfold concat in refl) (omega (arith, l0)))
          (rw
            (store-block 4 (m0 ∷ []) b1 m1 (b2 ∷ b3 ∷ b4 ∷ b5 ∷ b6 ∷ b7 ∷ b8 ∷ rest ∷ [])
              (omega (arith, l0, length-concat (m0 ∷ []))) (omega (arith, l1)))
            (rw
              (store-block 8 (m0 ∷ m1 ∷ []) b2 m2 (b3 ∷ b4 ∷ b5 ∷ b6 ∷ b7 ∷ b8 ∷ rest ∷ [])
                (omega (arith, l0, l1, length-concat (m0 ∷ m1 ∷ []))) (omega (arith, l2)))
              (rw
                (store-block 16 (m0 ∷ m1 ∷ m2 ∷ []) b3 m3 (b4 ∷ b5 ∷ b6 ∷ b7 ∷ b8 ∷ rest ∷ [])
                  (omega (arith, l0, l1, l2, length-concat (m0 ∷ m1 ∷ m2 ∷ [])))
                  (omega (arith, l3)))
                (rw
                  (write_name-block 40 s efivar_needed (m0 ∷ m1 ∷ m2 ∷ m3 ∷ b4 ∷ b5 ∷ []) b6
                    (b7 ∷ b8 ∷ rest ∷ []) h pos (omega arith) (omega (arith, length-named))
                    (omega (arith, length-named))
                    (omega
                      (arith, l0, l1, l2, l3, length-concat (m0 ∷ m1 ∷ m2 ∷ m3 ∷ b4 ∷ b5 ∷ [])))
                    p6)
                  (rw room (
                    rw
                      (store-block 32 (m0 ∷ m1 ∷ m2 ∷ m3 ∷ []) b4 m4
                        (b5 ∷ name_bytes s ∷ b7 ∷ b8 ∷ rest ∷ [])
                        (omega (arith, l0, l1, l2, l3, length-concat (m0 ∷ m1 ∷ m2 ∷ m3 ∷ [])))
                        (omega (arith, l4)))
                      (rw
                        (store-block 36 (m0 ∷ m1 ∷ m2 ∷ m3 ∷ m4 ∷ []) b5 m5
                          (name_bytes s ∷ b7 ∷ b8 ∷ rest ∷ [])
                          (omega (
                            arith,
                            l0,
                            l1,
                            l2,
                            l3,
                            l4,
                            length-concat (m0 ∷ m1 ∷ m2 ∷ m3 ∷ m4 ∷ []),
                          ))
                          (omega (arith, l5)))
                        (rw (load-all contents) (
                          rw
                            (store-block (40 + (2 * length s + 2))
                              (efivar_head ++ (name_bytes s ∷ [])) b7 contents (b8 ∷ rest ∷ [])
                              (omega (
                                arith,
                                efivar_size,
                                length-concat efivar_fields,
                                length-concat (efivar_head ++ (name_bytes s ∷ [])),
                              ))
                              (omega arith))
                            (rw (
                              write_crc-block efivar_needed
                                (40 + (2 * length s + 2) + length contents) efivar_fields b8
                                (rest ∷ []) (omega (arith, efivar_size)) (omega arith) p8)))))))))))
      where
        l0 : length m0 ≡ 4
        l0 = length-le_bytes 4 efivar_magic

        l1 : length m1 ≡ 4
        l1 = length-le_bytes 4 1

        l2 : length m2 ≡ 8
        l2 = length-le_bytes 8 attrs

        l3 : length m3 ≡ 16
        l3 = length-guid_bytes guid

        l4 : length m4 ≡ 4
        l4 = length-le_bytes 4 (2 * length s + 2)

        l5 : length m5 ≡ 4
        l5 = length-le_bytes 4 (length contents)

        length-named :
            length (concat (m0 ∷ m1 ∷ m2 ∷ m3 ∷ b4 ∷ b5 ∷ b6 ∷ b7 ∷ b8 ∷ rest ∷ []))
            ≡ efivar_needed + length rest
        length-named = omega (
          arith,
          l0,
          l1,
          l2,
          l3,
          length-concat (m0 ∷ m1 ∷ m2 ∷ m3 ∷ b4 ∷ b5 ∷ b6 ∷ b7 ∷ b8 ∷ rest ∷ []),
        )

        room :
            ltb
              (length (concat (b0 ∷ b1 ∷ b2 ∷ b3 ∷ b4 ∷ b5 ∷ b6 ∷ b7 ∷ b8 ∷ rest ∷ [])))
              efivar_needed
            ≡ false
        room =
            ground (arith, length-concat (b0 ∷ b1 ∷ b2 ∷ b3 ∷ b4 ∷ b5 ∷ b6 ∷ b7 ∷ b8 ∷ rest ∷ []))

  parts : List ℕ
  parts = 4 ∷ 4 ∷ 8 ∷ 16 ∷ 4 ∷ 4 ∷ (2 * length s + 2) ∷ length contents ∷ 4 ∷ []

  fill_any :
      (buf : List ℕ)
      → All IsUnit s
      → 0 < length s
      → efivar_needed < 2 ^ 31
      → efivar_needed ≤ length buf
      → length (utf8_of s) ≤ length buf - 8
      → fill_efivar var (utf8_of s) contents (2 * length s + 2) efivar_needed buf
        ≡ ok
            (record { rc = efivar_needed; buffer = concat (efivar_image (drop efivar_needed buf)) })
  unfolding pieces parts
  fill_any buf h pos small enough fits =
      let (p0, (p1, (p2, (p3, (p4, (p5, (p6, (p7, (p8, end))))))))) = sized in
      sym (
        ap (fill_efivar var (utf8_of s) contents (2 * length s + 2) efivar_needed)
          (concat-pieces parts buf))
      ∙ fill-blocks _ _ _ _ _ _ _ _ _ (drop (sum parts) buf) p0 p1 p2 p3 p4 p5 p6 p7 p8 h pos small
          (omega (arith, length-drop (sum parts) buf))
      ∙ ap
          (λ (k : ℕ).
            ok (record { rc = efivar_needed; buffer = concat (efivar_image (drop k buf)) }))
          (unfold parts in omega arith)
    where
      sized : Sized parts (pieces parts buf)
      sized = pieces-Sized parts buf (omega arith)

  -- `efi_variable_export` of a variable with all of its parts, whose name is the UTF-8 of a string of non-zero
  -- 16-bit units, not empty. If the export has less than 2^31 bytes, the buffer has room for it, and the name has
  -- no more UTF-8 bytes than the buffer without 8, then the fields and their CRC are written to the front of the
  -- buffer and nothing behind them, and their size is returned.
  pub efi_variable_export-image :
      (buf : List ℕ)
      → All IsUnit s
      → 0 < length s
      → efivar_needed < 2 ^ 31
      → efivar_needed ≤ length buf
      → length (utf8_of s) ≤ length buf - 8
      → efi_variable_export (whole attrs guid s contents) (some buf)
        ≡ ok
            (record { rc = efivar_needed; buffer = concat (efivar_image (drop efivar_needed buf)) })
  unfolding efi_variable_export checked_name checked_data
  efi_variable_export-image buf h pos small enough fits =
      rw (sizes-string 44 s (length contents) h (omega arith))
        (rw not_empty (rw fits_in (fill_any buf h pos small enough fits)))
    where
      not_empty : (length buf == 0) ≡ false
      not_empty = ground arith

      fits_in : ltb (length buf) efivar_needed ≡ false
      fits_in = ground arith
