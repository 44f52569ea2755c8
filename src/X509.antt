-- ===== src/X509.antt =====
-- src/x509.h: `get_asn1_seq_size`, which reads the size of a certificate from the head of its DER sequence.
pub mod Size
mod Tests
use efivar.Common.{
  ℕ, zero, suc, ◌+◌, ◌-◌, ◌*◌, ◌^◌, ◌%◌, Bool, true, false, not, ◌&&◌, ◌||◌, List, [], ◌∷◌, ltb,
  leb, ◌==◌, bit_and, bit_or, if◌then◌else◌,
}
use efivar.Common.Outcome.{Outcome, ok, fault, unset, ◌>>=◌, ◌>>◌, guard}
use efivar.Common.Memory.{load_le}

abbrev pub smallest_possible_der_seq : ℕ
smallest_possible_der_seq = 3

-- The loop over `octets` bytes from `at` on, in 32 bits.
unfoldable pub der_length : ℕ → ℕ → List ℕ → ℕ → Outcome ℕ
der_length zero at location der_len = ok der_len
der_length (suc octets) at location der_len = load_le at 1 location >>= λ b.
    der_length octets (at + 1) location (bit_or (der_len * 2 ^ 8 % 2 ^ 32) b)

-- `octets == 4 && (location[2] & 0x8)`, where the second test is made after the first.
unfoldable pub too_long : ℕ → List ℕ → Outcome Bool
too_long octets location =
    if ltb 4 octets
    then ok true
    else if octets == 4
    then (load_le 2 1 location >>= λ b. ok (not (bit_and b 0x8 == 0)))
    else ok false

-- The length, where it is at most what is left of `left` bytes behind its octets, and 4, in 32 bits.
unfoldable pub long_form : ℕ → List ℕ → ℕ → Outcome ℕ
unfolding der_length
long_form octets location left = do
  guard (leb octets left) unset
  der_len ← der_length octets 2 location 0
  guard (leb der_len (left - octets)) unset
  ok ((der_len + 4) % 2 ^ 32)

-- The size as the bits of the int that is returned. A return of -1 is `err`.
unfoldable pub get_asn1_seq_size : List ℕ → ℕ → Outcome ℕ
unfolding long_form too_long
get_asn1_seq_size location size = do
  guard (leb smallest_possible_der_seq size) unset
  tag ← load_le 0 1 location
  guard (tag == 0x30) unset
  form ← load_le 1 1 location
  guard (not (bit_and form 0x80 == 0)) unset
  long ← too_long (bit_and form 0x7) location
  guard (not long) unset
  long_form (bit_and form 0x7) location (size - 2)
