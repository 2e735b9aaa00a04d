-- ===== src/Runtime/Trust/Hex.antt =====
-- The text that the trust file stores for a fingerprint reads back as the fingerprint.
use omnipresent.Prelude.{
  ℕ, ◌*◌, ◌/◌, ◌%◌, ◌<◌, ◌≡◌, refl, true, false, some, [], ◌∷◌, arith, ◌==◌, nat_eq,
}
use omnipresent.Prelude.Lists.{length, All}
use omnipresent.Protocol.Ids.{Fingerprint, IsDigest, hex_digit, to_hex}
use omnipresent.Runtime.Trust.{
  hex_value, from_str_radix, parse_chunks, parse_fingerprint, fingerprint_hex,
}

hex_value-hex_digit :
    (d : ℕ) → d < 16 → (hex_value (hex_digit d) ≡ some d) × ((hex_digit d == b'+') ≡ false)
unfolding hex_value hex_digit
hex_value-hex_digit d h = (ground arith, ground arith)

from_str_radix-digits :
    (b : ℕ) → b < 256 → from_str_radix (hex_digit (b / 16)) (hex_digit (b % 16)) ≡ some b
unfolding from_str_radix
from_str_radix-digits b h =
    let high = hex_value-hex_digit (b / 16) (omega arith) in
    let low = hex_value-hex_digit (b % 16) (omega arith) in
    rw (high.1, high.0, low.0) (ground arith)

parse_chunks-to_hex : (f : Fingerprint) → All (λ b. b < 256) f → parse_chunks (to_hex f) ≡ some f
unfolding parse_chunks to_hex
parse_chunks-to_hex [] h = refl
parse_chunks-to_hex (b ∷ f) h = rw (from_str_radix-digits b h.0, parse_chunks-to_hex f h.1)

length-to_hex : (f : Fingerprint) → length (to_hex f) ≡ 2 * length f
unfolding to_hex
length-to_hex [] = refl
length-to_hex (b ∷ f) = omega (arith, length-to_hex f)

-- Printing a SHA-256 digest and parsing the text gives the digest back.
pub parse_fingerprint-hex :
    (f : Fingerprint) → IsDigest f → parse_fingerprint (fingerprint_hex f) ≡ some f
unfolding parse_fingerprint fingerprint_hex
parse_fingerprint-hex f d =
    let e : (length (to_hex f) == 64) ≡ true = ground (arith, length-to_hex f, d.0) in
    rw e (parse_chunks-to_hex f d.1)
