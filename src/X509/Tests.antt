-- ===== src/X509/Tests.antt =====
-- Heads of certificates.
use efivar.Common.{ℕ, ◌+◌, ◌≤◌, ◌≡◌, refl, arith, List, [], ◌∷◌, bit_and}
use efivar.Common.Outcome.{ok}
use efivar.Common.Memory.{load, load_le, le_value}
use efivar.X509.{der_length, long_form, too_long, get_asn1_seq_size}
use efivar.X509.Size.{get_asn1_seq_size-bound}

-- A length of two octets, 2, and the two bytes behind it.
abbrev head : List ℕ
head = 0x30 ∷ 0x82 ∷ 0 ∷ 2 ∷ 5 ∷ 5 ∷ []

head_size : get_asn1_seq_size head 6 ≡ ok 6
unfolding get_asn1_seq_size der_length long_form too_long load_le load le_value
head_size = refl

-- With one octet the size is one more than the bytes there are.
one_octet : get_asn1_seq_size (0x30 ∷ 0x81 ∷ 1 ∷ 5 ∷ []) 4 ≡ ok 5
unfolding get_asn1_seq_size der_length long_form too_long load_le load le_value
one_octet = refl

get_asn1_seq_size-bound_example :
    (form : ℕ) × (load_le 1 1 head ≡ ok form) × (6 + bit_and form 7 ≤ 6 + 2)
get_asn1_seq_size-bound_example = get_asn1_seq_size-bound head 6 6 (omega arith) head_size
