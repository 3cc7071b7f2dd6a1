-- ===== src/Sdk/Collateral.antt =====
-- web-client/caladon/src/collateral.ts: the certificates in a quote, the FMSPC of the leaf, and the
-- collateral that is fetched for it. A certificate is its DER bytes. The network, atob, JSON and
-- decodeURIComponent are the parameter Pcs; `none` is a throw.
pub mod Search
pub mod RootCrl
pub mod Fetch
use caladon.Prelude.{
  ℕ, zero, suc, ◌+◌, ◌-◌, ◌*◌, ◌/◌, ◌%◌, ◌^◌, Bool, true, false, not, ◌&&◌, ◌||◌, Option, none,
  some, List, [], ◌∷◌, ◌++◌, ltb, leb, eqb, if◌then◌else◌, length, take, drop,
}
use caladon.Sdk.Text.{Text, codes, is_space, starts_with, includes, trim}
use caladon.Sdk.Bytes.{to_hex, from_hex}

abbrev pub begin_tag : Text
begin_tag = codes "-----BEGIN CERTIFICATE-----"

abbrev pub end_tag : Text
end_tag = codes "-----END CERTIFICATE-----"

abbrev pub shift : Option ℕ → Option ℕ
shift none = none
shift (some n) = some (suc n)

-- s.indexOf(p) and s.lastIndexOf(p), or none for -1
unfoldable pub index_of : Text → Text → Option ℕ
unfolding starts_with
index_of p [] = if starts_with p [] then some 0 else none
index_of p (c ∷ s) = let rest = index_of p s in if starts_with p (c ∷ s) then some 0 else shift rest

abbrev pub later : Bool → Option ℕ → Option ℕ
later here (some n) = some (suc n)
later here none = if here then some 0 else none

unfoldable pub last_index_of : Text → Text → Option ℕ
unfolding starts_with
last_index_of p [] = if starts_with p [] then some 0 else none
last_index_of p (c ∷ s) = later (starts_with p (c ∷ s)) (last_index_of p s)

-- s.slice(a, b)
abbrev pub slice : ℕ → ℕ → Text → Text
slice a b s = drop a (take b s)

-- extractPckChainFromQuote: a byte is a character.
unfoldable pub extract_pck_chain_from_quote : List ℕ → Option Text
unfolding index_of last_index_of trim
extract_pck_chain_from_quote quote = elim (index_of begin_tag quote) [
  | none ↦ none
  | some begin ↦ elim (last_index_of end_tag quote) [
    | none ↦ none
    | some last_end ↦ some (trim (slice begin (last_end + length end_tag) quote))
  ]
]

-- The text up to a tag, and the text after it.
unfoldable pub cut_at : Text → Text → Option (Text × Text)
unfolding index_of
cut_at p s = elim (index_of p s) [ none ↦ none | some i ↦ some (take i s, drop (i + length p) s) ]

-- replace(/\s+/g, '')
unfoldable pub without_space : Text → Text
unfolding is_space
without_space [] = []
without_space (c ∷ s) = let rest = without_space s in if is_space c then rest else c ∷ rest

-- The matches of the expression, in order; each takes the text up to the next END tag.
unfoldable pub pem_bodies : ℕ → Text → List Text
unfolding cut_at without_space
pem_bodies zero s = []
pem_bodies (suc fuel) s = elim (cut_at begin_tag s) [
  | none ↦ []
  | some (_, after_begin) ↦ elim (cut_at end_tag after_begin) [
    | none ↦ []
    | some (body, rest) ↦ without_space body ∷ pem_bodies fuel rest
  ]
]

unfoldable pub decode_all : (Text → Option (List ℕ)) → List Text → Option (List (List ℕ))
decode_all b64 [] = some []
decode_all b64 (t ∷ ts) = elim (b64 t) [
  | none ↦ none
  | some der ↦ elim (decode_all b64 ts) [ none ↦ none | some ders ↦ some (der ∷ ders) ]
]

-- pemChainToDer; an empty chain throws.
unfoldable pub pem_chain_to_der : (Text → Option (List ℕ)) → Text → Option (List ℕ × List (List ℕ))
unfolding pem_bodies decode_all
pem_chain_to_der b64 pem = elim (decode_all b64 (pem_bodies (length pem) pem)) [
  | none ↦ none
  | some [] ↦ none
  | some (leaf ∷ issuers) ↦ some (leaf, issuers)
]

-- The loop of oidToDer over one arc, with fuel: the groups of seven bits, the last one without the
-- high bit.
unfoldable pub base128 : ℕ → ℕ → List ℕ → List ℕ
base128 zero v stack = stack
base128 (suc fuel) v stack =
    let rest = base128 fuel (v / 128) ((v % 128 + 128) ∷ stack) in if eqb v 0 then stack else rest

unfoldable pub arcs_to_der : List ℕ → List ℕ
unfolding base128
arcs_to_der [] = []
arcs_to_der (v ∷ vs) = base128 v (v / 128) (v % 128 ∷ []) ++ arcs_to_der vs

-- oidToDer, of the numbers between the dots
unfoldable pub oid_to_der : List ℕ → List ℕ
unfolding arcs_to_der
oid_to_der (a ∷ b ∷ rest) = (40 * a + b) % 256 ∷ arcs_to_der rest
oid_to_der _ = []

abbrev pub oid_sgx_extension : List ℕ
oid_sgx_extension = 1 ∷ 2 ∷ 840 ∷ 113741 ∷ 1 ∷ 13 ∷ 1 ∷ []

abbrev pub oid_fmspc : List ℕ
oid_fmspc = 1 ∷ 2 ∷ 840 ∷ 113741 ∷ 1 ∷ 13 ∷ 1 ∷ 4 ∷ []

unfoldable pub bytes_equal : List ℕ → List ℕ → Bool
bytes_equal [] [] = true
bytes_equal [] (b ∷ bs) = false
bytes_equal (a ∷ xs) [] = false
bytes_equal (a ∷ xs) (b ∷ bs) = eqb a b && bytes_equal xs bs

-- Where a value lies. `content_end` stands 2 ^ 32 above the end, which is negative where the length
-- wraps round to a negative number; `none` is NaN, where the length byte is missing.
pub record Span : Type 0 where
  pub content_start : ℕ
  pub content_end : Option ℕ

-- `len = (len << 8) | b[i++]`, n times, on 32 bits; past the end a byte counts as 0.
unfoldable pub long_length : ℕ → ℕ → List ℕ → ℕ
long_length zero len s = len
long_length (suc n) len [] = long_length n (len * 256 % 2 ^ 32) []
long_length (suc n) len (b ∷ s) = long_length n (len * 256 % 2 ^ 32 + b) s

-- i + len, for the 32 bits of `len` as a signed number, 2 ^ 32 above
abbrev pub end_of : ℕ → ℕ → ℕ
end_of i len = if ltb len (2 ^ 31) then i + len + 2 ^ 32 else i + len

-- readTlv at `off`, past the tag
unfoldable pub read_span : ℕ → List ℕ → Span
unfolding long_length
read_span off [] = record { content_start = off + 2; content_end = none }
read_span off (len ∷ s) =
    if leb 128 len
    then record {
      content_start = off + 2 + len % 128;
      content_end = some (end_of (off + 2 + len % 128) (long_length (len % 128) 0 s));
    }
    else record { content_start = off + 2; content_end = some (end_of (off + 2) len) }

-- `b[i] === 0x06 && b[i + 1] === oid.length`, and the bytes of the identifier
unfoldable pub is_oid : List ℕ → List ℕ → Bool
unfolding bytes_equal
is_oid oid (t ∷ l ∷ s) = eqb t 6 && eqb l (length oid) && bytes_equal (take (length oid) s) oid
is_oid oid _ = false

-- The value after the identifier, if it is an OCTET STRING; `s` starts at `off`.
unfoldable pub octet_string : ℕ → List ℕ → Option Span
unfolding read_span
octet_string off [] = none
octet_string off (tag ∷ s) = if eqb tag 4 then some (read_span off s) else none

abbrev pub or_next : Option Span → Option Span → Option Span
or_next (some x) rest = some x
or_next none rest = rest

-- findOidValueOctetString from index i on, where `s` is the rest of the bytes
unfoldable pub find_oid_value : List ℕ → ℕ → List ℕ → Option Span
unfolding is_oid octet_string
find_oid_value oid i [] = none
find_oid_value oid i (c ∷ s) =
    let rest = find_oid_value oid (suc i) s in
    if not (ltb (2 + length oid) (suc (length s)))
    then none
    else if is_oid oid (c ∷ s)
    then or_next (octet_string (i + 2 + length oid) (drop (2 + length oid) (c ∷ s))) rest
    else rest

-- b.subarray(start, end)
unfoldable pub subarray : ℕ → Option ℕ → List ℕ → List ℕ
subarray start none b = []
subarray start (some e) b =
    if leb (2 ^ 32) e
    then drop start (take (e - 2 ^ 32) b)
    else drop start (take (length b - (2 ^ 32 - e)) b)

-- toUpperCase of hexadecimal digits
unfoldable pub upper_hex : Text → Text
upper_hex [] = []
upper_hex (c ∷ t) = (if leb 97 c && leb c 102 then c - 32 else c) ∷ upper_hex t

abbrev pub offset_end : ℕ → Option ℕ → Option ℕ
offset_end n none = none
offset_end n (some e) = some (n + e)

-- extractFmspc(certDer)
unfoldable pub extract_fmspc : List ℕ → Option Text
unfolding oid_to_der find_oid_value subarray upper_hex to_hex
extract_fmspc cert = elim (find_oid_value (oid_to_der oid_sgx_extension) 0 cert) [
  | none ↦ none
  | some ext ↦
      elim (find_oid_value (oid_to_der oid_fmspc) 0
        (subarray ext.content_start ext.content_end cert)) [
          | none ↦ none
          | some f ↦ some (
              upper_hex (
                to_hex (
                  subarray (ext.content_start + f.content_start)
                    (offset_end ext.content_start f.content_end) cert)))
        ]
]

-- extractCa(leafDer)
unfoldable pub extract_ca : List ℕ → Text
unfolding includes
extract_ca leaf =
    if includes (codes "PCK Platform CA") leaf then codes "platform" else codes "processor"

abbrev pub is_hex_digit : ℕ → Bool
is_hex_digit c = (leb 48 c && leb c 57) || (leb 97 c && leb c 102) || (leb 65 c && leb c 70)

unfoldable pub all_hex : Text → Bool
all_hex [] = true
all_hex (c ∷ t) = is_hex_digit c && all_hex t

-- /^[0-9a-fA-F]+$/.test(t) && t.length % 2 === 0
unfoldable pub is_hex : Text → Bool
unfolding all_hex
is_hex [] = false
is_hex (c ∷ t) = all_hex (c ∷ t) && eqb (length (c ∷ t) % 2) 0

-- fetchRootCaCrl, of the text that has come: hexadecimal is decoded, anything else taken as it is.
unfoldable pub root_ca_crl_of : (Text → List ℕ) → Text → List ℕ
unfolding trim is_hex from_hex
root_ca_crl_of utf8 text = if is_hex (trim text) then from_hex (trim text) else utf8 (trim text)
