-- ===== src/Sdk/Collateral/RootCrl.antt =====
-- collateral.ts with web-client/shim/src/server.ts: the revocation list of the root, which the shim
-- writes in hexadecimal and the client reads.
use caladon.Prelude.{
  ◌≡◌, ◌≢◌, refl, ap, arith, ℕ, suc, ◌*◌, ◌/◌, ◌%◌, ◌<◌, true, false, List, [], ◌∷◌, All, length,
}
use caladon.Sdk.Text.{Text, is_space, trim, trim_start, trim_end, join_end}
use caladon.Sdk.Bytes.{IsByte, hex_digit, to_hex}
use caladon.Sdk.Bytes.Hex.{from_hex-to_hex, length-to_hex}
use caladon.Sdk.Collateral.{is_hex_digit, all_hex, is_hex, root_ca_crl_of}
use caladon.Shim.Server.{hex_of}

-- the shim's hexadecimal is that of the package
hex_of-to_hex : (bs : List ℕ) → hex_of bs ≡ to_hex bs
unfolding hex_of to_hex hex_digit
hex_of-to_hex [] = refl
hex_of-to_hex (b ∷ bs) = ap (λ t. hex_digit (b / 16) ∷ hex_digit (b % 16) ∷ t) (hex_of-to_hex bs)

is_hex_digit-hex_digit : (d : ℕ) → d < 16 → is_hex_digit (hex_digit d) ≡ true
unfolding hex_digit
is_hex_digit-hex_digit d h = ground arith

all_hex-to_hex : (bs : List ℕ) → All IsByte bs → all_hex (to_hex bs) ≡ true
unfolding all_hex to_hex
all_hex-to_hex [] h = refl
all_hex-to_hex (b ∷ bs) h =
    rw
      (
        is_hex_digit-hex_digit (b / 16) (omega (arith, h.0)),
        is_hex_digit-hex_digit (b % 16) (omega arith),
      )
      (all_hex-to_hex bs h.1)

is_hex_even : (t : Text) (n : ℕ) → all_hex t ≡ true → length t ≡ 2 * suc n → is_hex t ≡ true
unfolding is_hex
is_hex_even [] n h e = absurd (omega (arith, e))
is_hex_even (c ∷ t) n h e = rw (h, e) (ground arith)

is_hex-to_hex : (bs : List ℕ) → bs ≢ [] → All IsByte bs → is_hex (to_hex bs) ≡ true
is_hex-to_hex [] ne h = absurd (ne refl)
is_hex-to_hex (b ∷ bs) ne h =
    is_hex_even (to_hex (b ∷ bs)) (length bs) (all_hex-to_hex (b ∷ bs) h) (length-to_hex (b ∷ bs))

space_not_hex : (c : ℕ) → is_hex_digit c ≡ true → is_space c ≡ false
unfolding is_space
space_not_hex c h = ground arith

join_end_kept : (c : ℕ) (t : Text) → is_space c ≡ false → join_end c t ≡ c ∷ t
unfolding join_end
join_end_kept c [] h = rw h refl
join_end_kept c (d ∷ t) h = refl

trim_start-all_hex : (t : Text) → all_hex t ≡ true → trim_start t ≡ t
unfolding trim_start all_hex
trim_start-all_hex [] h = refl
trim_start-all_hex (c ∷ t) h = rw (space_not_hex c (ground arith)) refl

trim_end-all_hex : (t : Text) → all_hex t ≡ true → trim_end t ≡ t
unfolding trim_end all_hex
trim_end-all_hex [] h = refl
trim_end-all_hex (c ∷ t) h =
    rw (trim_end-all_hex t (ground arith)) (join_end_kept c t (space_not_hex c (ground arith)))

trim-all_hex : (t : Text) → all_hex t ≡ true → trim t ≡ t
unfolding trim
trim-all_hex t h = rw (trim_end-all_hex t h) (trim_start-all_hex t h)

-- The revocation list that the shim serves is read back by the client byte for byte, where it is
-- not empty: what root-ca-crl answers is hexadecimal, and fetchRootCaCrl decodes it.
pub root_ca_crl_of-hex_of :
    (utf8 : Text → List ℕ) (der : List ℕ)
    → der ≢ []
    → All IsByte der
    → root_ca_crl_of utf8 (hex_of der) ≡ der
unfolding root_ca_crl_of
root_ca_crl_of-hex_of utf8 der ne h =
    rw (hex_of-to_hex der, trim-all_hex (to_hex der) (all_hex-to_hex der h), is_hex-to_hex der ne h)
      (from_hex-to_hex der h)
