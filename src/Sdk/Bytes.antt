-- ===== src/Sdk/Bytes.antt =====
-- web-client/caladon/src/bytes.ts: base64, hexadecimal and concatenation. A byte is a number; the
-- masks and shifts of the source are written as % and / by powers of two, and an `|` of numbers
-- with no common bit as +.
pub mod Base64
pub mod Hex
use caladon.Prelude.{
  ℕ, zero, suc, ◌+◌, ◌-◌, ◌*◌, ◌/◌, ◌%◌, ◌^◌, Option, none, some, List, [], ◌∷◌, ◌++◌, leb, eqb,
  ltb, if◌then◌else◌, ◌&&◌, ◌<◌,
}
use caladon.Sdk.Text.{Text, codes, is_space}

abbrev pub b64_chars : Text
b64_chars = codes "ABCDEFGHIJKLMNOPQRSTUVWXYZabcdefghijklmnopqrstuvwxyz0123456789+/"

-- s[i]; out of range is not met.
unfoldable pub char_at : Text → ℕ → ℕ
char_at [] i = 0
char_at (c ∷ s) zero = c
char_at (c ∷ s) (suc i) = char_at s i

-- s.indexOf(c) from position i, or none for -1
unfoldable pub index_from : ℕ → Text → ℕ → Option ℕ
index_from i [] c = none
index_from i (d ∷ s) c = let rest = index_from (suc i) s c in if eqb d c then some i else rest

unfoldable pub b64_char : ℕ → ℕ
unfolding char_at
b64_char i = char_at b64_chars i

-- The loop of toBase64, three bytes to a round; a byte past the end counts as 0 and its character
-- is '='.
unfoldable pub encode_b64 : List ℕ → Text
unfolding b64_char
encode_b64 [] = []
encode_b64 (a ∷ []) = b64_char (a / 4) ∷ b64_char (a % 4 * 16) ∷ b'=' ∷ b'=' ∷ []
encode_b64 (a ∷ b ∷ []) =
    b64_char (a / 4) ∷ b64_char (a % 4 * 16 + b / 16) ∷ b64_char (b % 16 * 4) ∷ b'=' ∷ []
encode_b64 (a ∷ b ∷ c ∷ rest) =
    b64_char (a / 4)
    ∷ b64_char (a % 4 * 16 + b / 16)
    ∷ b64_char (b % 16 * 4 + c / 64)
    ∷ b64_char (c % 64)
    ∷ encode_b64 rest

-- replace(/=+$/, '')
unfoldable pub join_pad : ℕ → Text → Text
join_pad c [] = if eqb c b'=' then [] else c ∷ []
join_pad c (d ∷ t) = c ∷ d ∷ t

unfoldable pub strip_pad : Text → Text
unfolding join_pad
strip_pad [] = []
strip_pad (c ∷ s) = join_pad c (strip_pad s)

-- (val << 6) | index, on 32 bits; an index of -1 sets them all.
unfoldable pub push_index : ℕ → Option ℕ → ℕ
push_index val none = 2 ^ 32 - 1
push_index val (some i) = val * 64 % 2 ^ 32 + i

-- The loop of fromBase64: `bits` counts the unread bits at the end of `val`.
unfoldable pub decode_b64 : ℕ → ℕ → Text → List ℕ
unfolding push_index index_from
decode_b64 bits val [] = []
decode_b64 bits val (c ∷ s) =
    let val' = push_index val (index_from 0 b64_chars c) in
    let rest = decode_b64 (if leb 8 (bits + 6) then bits + 6 - 8 else bits + 6) val' s in
    if leb 8 (bits + 6) then (val' / 2 ^ (bits + 6 - 8) % 256) ∷ rest else rest

-- The platform's btoa and atob are used where there are any; `none` is the code's own loop. atob
-- throws on a text that is no base64, the loop never does.
unfoldable pub to_base64 : Option (List ℕ → Text) → List ℕ → Text
unfolding encode_b64
to_base64 none bytes = encode_b64 bytes
to_base64 (some btoa) bytes = btoa bytes

unfoldable pub from_base64 : Option (Text → Option (List ℕ)) → Text → Option (List ℕ)
unfolding decode_b64 strip_pad
from_base64 none b64 = some (decode_b64 0 0 (strip_pad b64))
from_base64 (some atob) b64 = atob b64

unfoldable pub hex_digit : ℕ → ℕ
hex_digit d = if ltb d 10 then 48 + d else 87 + d

-- b.toString(16).padStart(2, '0') of every byte
unfoldable pub to_hex : List ℕ → Text
unfolding hex_digit
to_hex [] = []
to_hex (b ∷ bs) = hex_digit (b / 16) ∷ hex_digit (b % 16) ∷ to_hex bs

unfoldable pub hex_value : ℕ → Option ℕ
hex_value c =
    if ltb c 48
    then none
    else if leb c 57
    then some (c - 48)
    else if ltb c 65
    then none
    else if leb c 70
    then some (c - 55)
    else if ltb c 97
    then none
    else if leb c 102
    then some (c - 87)
    else none

-- What a byte array stores for parseInt of a text whose digits start at its second character.
unfoldable pub parse_signed : ℕ → Option ℕ → ℕ
unfolding is_space
parse_signed c none = 0
parse_signed c (some d) =
    if eqb c b'-' then (256 - d) % 256 else if eqb c b'+' then d else if is_space c then d else 0

unfoldable pub parse_tail : ℕ → ℕ → Option ℕ → ℕ
parse_tail c d none = d
parse_tail c d (some e) = 16 * d + e

-- parseInt(c1 c2, 16), as a byte: NaN is stored as 0.
unfoldable pub parse_byte : ℕ → ℕ → ℕ
unfolding parse_signed parse_tail hex_value
parse_byte c1 c2 = elim (hex_value c1) [
  | none ↦ parse_signed c1 (hex_value c2)
  | some d ↦ parse_tail c1 d (hex_value c2)
]

unfoldable pub parse_pairs : Text → List ℕ
unfolding parse_byte
parse_pairs (c1 ∷ c2 ∷ s) = parse_byte c1 c2 ∷ parse_pairs s
parse_pairs _ = []

-- hex.startsWith('0x') ? hex.slice(2) : hex
unfoldable pub strip_0x : Text → Text
strip_0x (c ∷ d ∷ s) = if eqb c b'0' && eqb d b'x' then s else c ∷ d ∷ s
strip_0x s = s

unfoldable pub from_hex : Text → List ℕ
unfolding strip_0x parse_pairs
from_hex hex = parse_pairs (strip_0x hex)

-- concatBytes of two parts
unfoldable pub concat_bytes : List ℕ → List ℕ → List ℕ
concat_bytes a b = a ++ b

-- the bytes of a Uint8Array
abbrev pub IsByte : ℕ → Type 0
IsByte b = b < 256
