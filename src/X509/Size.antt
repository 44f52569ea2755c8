-- ===== src/X509/Size.antt =====
-- src/x509.h: the sizes that `get_asn1_seq_size` returns.
use efivar.Common.{ℕ, ◌+◌, ◌-◌, ◌^◌, ◌%◌, ◌≤◌, ◌<◌, ◌≡◌, not, List, leb, ◌==◌, arith, bit_and}
use efivar.Common.Outcome.{ok, unset, guard, >>=-returned, >>-returned}
use efivar.Common.Memory.{load_le}
use efivar.X509.{smallest_possible_der_seq, der_length, long_form, too_long, get_asn1_seq_size}

-- Two guards passed bound the size returned.
guards-bound :
    (octets left der_len n : ℕ)
    → left + 4 < 2 ^ 32
    → guard (leb octets left) unset ≡ ok tt
    → guard (leb der_len (left - octets)) unset ≡ ok tt
    → ok ((der_len + 4) % 2 ^ 32) ≡ ok n
    → n + octets ≤ left + 4
guards-bound octets left der_len n lt g0 g1 e = ground arith

guard-three : (size : ℕ) → guard (leb smallest_possible_der_seq size) unset ≡ ok tt → 3 ≤ size
guard-three size g = ground arith

long_form-bound :
    (octets : ℕ) (location : List ℕ) (left n : ℕ)
    → left + 4 < 2 ^ 32
    → long_form octets location left ≡ ok n
    → n + octets ≤ left + 4
unfolding long_form
long_form-bound octets location left n lt h =
    let (g0, h1) = >>-returned _ n (guard (leb octets left) unset) h in
    let (der_len, _, h2) = >>=-returned _ n (der_length octets 2 location 0) h1 in
    let (g1, h3) = >>-returned _ n (guard (leb der_len (left - octets)) unset) h2 in
    guards-bound octets left der_len n lt g0 g1 h3

-- A size that `get_asn1_seq_size` returns for a certificate of `size` bytes, less than 2 ^ 32 - 2, is at most `size`
-- plus 2 less the number of octets of the length, which are the low three bits of the byte read at 1.
pub get_asn1_seq_size-bound :
    (location : List ℕ) (size n : ℕ)
    → size + 2 < 2 ^ 32
    → get_asn1_seq_size location size ≡ ok n
    → (form : ℕ) × (load_le 1 1 location ≡ ok form) × (n + bit_and form 7 ≤ size + 2)
unfolding get_asn1_seq_size
get_asn1_seq_size-bound location size n lt h =
    let (g, h1) = >>-returned _ n (guard (leb smallest_possible_der_seq size) unset) h in
    let (tag, _, h2) = >>=-returned _ n (load_le 0 1 location) h1 in
    let (_, h3) = >>-returned _ n (guard (tag == 0x30) unset) h2 in
    let (form, e, h4) = >>=-returned _ n (load_le 1 1 location) h3 in
    let (_, h5) = >>-returned _ n (guard (not (bit_and form 0x80 == 0)) unset) h4 in
    let (long, _, h6) = >>=-returned _ n (too_long (bit_and form 0x7) location) h5 in
    let (_, h7) = >>-returned _ n (guard (not long) unset) h6 in
    let three : 3 ≤ size = guard-three size g in
    let bound : n + bit_and form 7 ≤ size - 2 + 4 =
      long_form-bound (bit_and form 7) location (size - 2) n (omega (arith, three)) h7 in
    (form, e, omega (arith, three, bound))
