-- ===== src/Variable/Image/Dmpstore.antt =====
-- src/export.c: the bytes of `efi_variable_export_dmpstore`.
use efivar.Common.{
  ◌==◌, false, ℕ, ◌+◌, ◌-◌, ◌*◌, ◌^◌, ◌≤◌, ◌<◌, ◌≡◌, refl, sym, ap, ◌∙◌, List, [], ◌∷◌, ◌++◌,
  length, drop, All, some, arith, length-drop, ltb,
}
use efivar.Common.Outcome.{ok}
use efivar.Common.Memory.{
  pieces, sum, Sized, pieces-Sized, concat-pieces, length-concat, length-le_bytes, le_bytes, concat,
  length-concat, store-block, load-all, length-le_bytes,
}
use efivar.Crc32.{efi_crc32}
use efivar.Guid.{Guid}
use efivar.Guid.Layout.{guid_bytes, length-guid_bytes}
use efivar.Ucs2.Lengths.{IsUnit, utf8_of}
use efivar.Variable.{Variable}
use efivar.Variable.Export.{checked_name, checked_data, fill_dmpstore, efi_variable_export_dmpstore}
use efivar.Variable.Image.{
  name_bytes, length-name_bytes, sizes-string, write_name-block, write_crc-block,
}

module _ (attrs : ℕ) (guid : Guid) (s contents : List ℕ) where
  -- A variable that has all of its parts.
  abbrev pub whole : Variable
  whole = record {
    attrs = attrs;
    guid = some guid;
    name = some (utf8_of s);
    contents = some contents;
    data_size = length contents;
  }

  abbrev pub dmpstore_needed : ℕ
  dmpstore_needed = 32 + (2 * length s + 2) + length contents

  -- The fields in their order, without the CRC.
  abbrev pub dmpstore_fields : List (List ℕ)
  dmpstore_fields =
      le_bytes 4 (2 * length s + 2)
      ∷ le_bytes 4 (length contents)
      ∷ name_bytes s
      ∷ guid_bytes guid
      ∷ le_bytes 4 attrs
      ∷ contents
      ∷ []

  abbrev pub dmpstore_image : List ℕ → List (List ℕ)
  dmpstore_image rest =
      dmpstore_fields ++ (le_bytes 4 (efi_crc32 (concat dmpstore_fields)) ∷ rest ∷ [])

  pub dmpstore_size : length (concat dmpstore_fields) ≡ 30 + 2 * length s + length contents
  dmpstore_size = omega (
    arith,
    length-concat dmpstore_fields,
    length-le_bytes 4 (2 * length s + 2),
    length-le_bytes 4 (length contents),
    length-le_bytes 4 attrs,
    length-name_bytes s,
    length-guid_bytes guid,
  )

  module _ (b0 b1 b2 b3 b4 b5 b6 rest : List ℕ) (p0 : length b0 ≡ 4) (p1 : length b1 ≡ 4)
      (p2 : length b2 ≡ 2 * length s + 2) (p3 : length b3 ≡ 16) (p4 : length b4 ≡ 4)
      (p5 : length b5 ≡ length contents) (p6 : length b6 ≡ 4) (h : All IsUnit s)
      (pos : 0 < length s) (small : dmpstore_needed < 2 ^ 31)
      (fits : length (utf8_of s) ≤ 26 + 2 * length s + length contents + length rest) where
    abbrev blocks : List (List ℕ)
    blocks = b0 ∷ b1 ∷ b2 ∷ b3 ∷ b4 ∷ b5 ∷ b6 ∷ rest ∷ []

    length-blocks : length (concat blocks) ≡ dmpstore_needed + length rest
    length-blocks = omega (arith, length-concat blocks)

    room : ltb (length (concat blocks)) dmpstore_needed ≡ false
    room = ground (arith, length-blocks)

    fill-blocks :
        fill_dmpstore whole (utf8_of s) contents (2 * length s + 2) dmpstore_needed (concat blocks)
        ≡ ok (record { rc = dmpstore_needed; buffer = concat (dmpstore_image rest) })
    unfolding fill_dmpstore
    fill-blocks =
        rw
          (write_name-block 8 s dmpstore_needed (b0 ∷ b1 ∷ []) b2 (b3 ∷ b4 ∷ b5 ∷ b6 ∷ rest ∷ []) h
            pos (omega arith) (omega (arith, length-blocks)) (omega (arith, length-blocks))
            (omega (arith, length-concat (b0 ∷ b1 ∷ []))) p2)
          (rw room (
            rw
              (store-block 0 [] b0 f0 (b1 ∷ name_bytes s ∷ b3 ∷ b4 ∷ b5 ∷ b6 ∷ rest ∷ [])
                (unfold concat in refl) (omega (arith, l0)))
              (rw
                (store-block 4 (f0 ∷ []) b1 f1 (name_bytes s ∷ b3 ∷ b4 ∷ b5 ∷ b6 ∷ rest ∷ [])
                  (omega (arith, l0, length-concat (f0 ∷ []))) (omega (arith, l1)))
                (rw
                  (store-block (8 + (2 * length s + 2)) (f0 ∷ f1 ∷ name_bytes s ∷ []) b3
                    (guid_bytes guid) (b4 ∷ b5 ∷ b6 ∷ rest ∷ [])
                    (omega (arith, l0, l1, ln, length-concat (f0 ∷ f1 ∷ name_bytes s ∷ [])))
                    (omega (arith, lg)))
                  (rw
                    (store-block (24 + (2 * length s + 2))
                      (f0 ∷ f1 ∷ name_bytes s ∷ guid_bytes guid ∷ []) b4 f4 (b5 ∷ b6 ∷ rest ∷ [])
                      (omega (
                        arith,
                        l0,
                        l1,
                        ln,
                        lg,
                        length-concat (f0 ∷ f1 ∷ name_bytes s ∷ guid_bytes guid ∷ []),
                      ))
                      (omega (arith, l4)))
                    (rw (load-all contents) (
                      rw
                        (store-block (28 + (2 * length s + 2))
                          (f0 ∷ f1 ∷ name_bytes s ∷ guid_bytes guid ∷ f4 ∷ []) b5 contents
                          (b6 ∷ rest ∷ [])
                          (omega (
                            arith,
                            l0,
                            l1,
                            ln,
                            lg,
                            l4,
                            length-concat (f0 ∷ f1 ∷ name_bytes s ∷ guid_bytes guid ∷ f4 ∷ []),
                          ))
                          (omega arith))
                        (rw (
                          write_crc-block dmpstore_needed
                            (28 + (2 * length s + 2) + length contents) dmpstore_fields b6
                            (rest ∷ []) (omega (arith, dmpstore_size)) (omega arith) p6)))))))))
      where
        f0 : List ℕ
        f0 = le_bytes 4 (2 * length s + 2)

        f1 : List ℕ
        f1 = le_bytes 4 (length contents)

        f4 : List ℕ
        f4 = le_bytes 4 attrs

        l0 : length f0 ≡ 4
        l0 = length-le_bytes 4 (2 * length s + 2)

        l1 : length f1 ≡ 4
        l1 = length-le_bytes 4 (length contents)

        l4 : length f4 ≡ 4
        l4 = length-le_bytes 4 attrs

        ln : length (name_bytes s) ≡ 2 * length s + 2
        ln = length-name_bytes s

        lg : length (guid_bytes guid) ≡ 16
        lg = length-guid_bytes guid

  parts : List ℕ
  parts = 4 ∷ 4 ∷ (2 * length s + 2) ∷ 16 ∷ 4 ∷ length contents ∷ 4 ∷ []

  fill_any :
      (buf : List ℕ)
      → All IsUnit s
      → 0 < length s
      → dmpstore_needed < 2 ^ 31
      → dmpstore_needed ≤ length buf
      → length (utf8_of s) ≤ length buf - 8
      → fill_dmpstore whole (utf8_of s) contents (2 * length s + 2) dmpstore_needed buf
        ≡ ok (record {
          rc = dmpstore_needed;
          buffer = concat (dmpstore_image (drop dmpstore_needed buf));
        })
  unfolding pieces parts
  fill_any buf h pos small enough fits =
      let (p0, (p1, (p2, (p3, (p4, (p5, (p6, end))))))) = sized in
      sym (
        ap (fill_dmpstore whole (utf8_of s) contents (2 * length s + 2) dmpstore_needed)
          (concat-pieces parts buf))
      ∙ fill-blocks _ _ _ _ _ _ _ (drop (sum parts) buf) p0 p1 p2 p3 p4 p5 p6 h pos small
          (omega (arith, length-drop (sum parts) buf))
      ∙ ap
          (λ (k : ℕ).
            ok (record { rc = dmpstore_needed; buffer = concat (dmpstore_image (drop k buf)) }))
          (unfold parts in omega arith)
    where
      sized : Sized parts (pieces parts buf)
      sized = pieces-Sized parts buf (omega arith)

  -- `efi_variable_export_dmpstore` on a buffer that is large enough writes the fields and their CRC to
  -- its front, and nothing behind them, and returns their size.
  pub efi_variable_export_dmpstore-image :
      (buf : List ℕ)
      → All IsUnit s
      → 0 < length s
      → dmpstore_needed < 2 ^ 31
      → dmpstore_needed ≤ length buf
      → length (utf8_of s) ≤ length buf - 8
      → efi_variable_export_dmpstore whole (some buf)
        ≡ ok (record {
          rc = dmpstore_needed;
          buffer = concat (dmpstore_image (drop dmpstore_needed buf));
        })
  unfolding efi_variable_export_dmpstore checked_name checked_data
  efi_variable_export_dmpstore-image buf h pos small enough fits =
      rw (sizes-string 32 s (length contents) h (omega arith))
        (rw not_empty (rw fits_in (fill_any buf h pos small enough fits)))
    where
      not_empty : (length buf == 0) ≡ false
      not_empty = ground arith

      fits_in : ltb (length buf) dmpstore_needed ≡ false
      fits_in = ground arith
