-- ===== src/Sdk/Bytes/Hex.antt =====
-- bytes.ts: hexadecimal there and back.
use caladon.Sdk.Bytes.{
  IsByte, from_hex, hex_digit, hex_value, parse_byte, parse_pairs, strip_0x, to_hex, parse_tail,
}
use caladon.Prelude.{All, List, [], ap₂, arith, length, refl, some, ℕ, ◌%◌, ◌*◌, ◌/◌, ◌<◌, ◌∷◌, ◌≡◌}

hex_value-digit : (d : ℕ) → d < 16 → hex_value (hex_digit d) ≡ some d
unfolding hex_value hex_digit
hex_value-digit d h = ground arith

parse_byte-digits : (b : ℕ) → b < 256 → parse_byte (hex_digit (b / 16)) (hex_digit (b % 16)) ≡ b
unfolding parse_byte parse_tail
parse_byte-digits b h =
    ground (arith, hex_value-digit (b / 16) (omega arith), hex_value-digit (b % 16) (omega arith))

parse_pairs-to_hex : (bs : List ℕ) → All IsByte bs → parse_pairs (to_hex bs) ≡ bs
unfolding parse_pairs to_hex
parse_pairs-to_hex [] h = refl
parse_pairs-to_hex (b ∷ bs) h = ap₂ ◌∷◌ (parse_byte-digits b h.0) (parse_pairs-to_hex bs h.1)

-- A second hexadecimal digit is no 'x', so nothing is taken for a prefix.
strip_0x-to_hex : (bs : List ℕ) → strip_0x (to_hex bs) ≡ to_hex bs
unfolding strip_0x to_hex hex_digit
strip_0x-to_hex [] = refl
strip_0x-to_hex (b ∷ bs) = ground arith

-- fromHex reads back what toHex wrote, for every array of bytes.
pub from_hex-to_hex : (bs : List ℕ) → All IsByte bs → from_hex (to_hex bs) ≡ bs
unfolding from_hex
from_hex-to_hex bs h = rw (strip_0x-to_hex bs, parse_pairs-to_hex bs h)

-- Every byte is two characters.
pub length-to_hex : (bs : List ℕ) → length (to_hex bs) ≡ 2 * length bs
unfolding to_hex
length-to_hex [] = refl
length-to_hex (b ∷ bs) = omega (arith, length-to_hex bs)
