-- ===== src/Sdk/Quote.antt =====
-- web-client/caladon/src/quote.ts: the measurements in a TDX quote.
use caladon.Sdk.Bytes.{IsByte, hex_digit, to_hex, from_hex}
use caladon.Sdk.Bytes.Hex.{length-to_hex, from_hex-to_hex}
use caladon.Prelude.{
  Bool, true, zero, suc, leb, ◌&&◌, ◌||◌, ◌<◌, ◌/◌, ◌%◌, All, All-take, [], ◌∷◌, ap, sym, subst,
  refl, List, Option, arith, drop, if◌then◌else◌, length, length-drop, length-take, ltb, none, some,
  take, ℕ, ◌*◌, ◌++◌, ◌+◌, ◌-◌, ◌≡◌, ◌≤◌,
}
use caladon.Sdk.Text.{Text}

abbrev pub header : ℕ
header = 48

abbrev pub mr_td_off : ℕ
mr_td_off = header + 16 + 48 + 48 + 8 + 8 + 8

abbrev pub rtmr0_off : ℕ
rtmr0_off = mr_td_off + 48 + 48 + 48 + 48

abbrev pub reg : ℕ
reg = 48

pub record TdxMeasurements : Type 0 where
  pub mr_td : Text
  pub rtmr0 : Text
  pub rtmr1 : Text
  pub rtmr2 : Text
  pub rtmr3 : Text
  pub aggregate : Text
  pub report_data_challenge : Text

-- quote.subarray(from, to)
unfoldable pub subarray : List ℕ → ℕ → ℕ → List ℕ
subarray bytes from to = take (to - from) (drop from bytes)

unfoldable pub register_at : List ℕ → ℕ → Text
unfolding subarray
register_at quote off = to_hex (subarray quote off (off + reg))

-- The object that the function returns.
unfoldable pub measurements_of : List ℕ → TdxMeasurements
measurements_of quote = record {
  mr_td = register_at quote mr_td_off;
  rtmr0 = register_at quote rtmr0_off;
  rtmr1 = register_at quote (rtmr0_off + reg);
  rtmr2 = register_at quote (rtmr0_off + 2 * reg);
  rtmr3 = register_at quote (rtmr0_off + 3 * reg);
  aggregate =
      register_at quote mr_td_off
      ++ (register_at quote rtmr0_off
          ++ (register_at quote (rtmr0_off + reg) ++ register_at quote (rtmr0_off + 2 * reg)));
  report_data_challenge =
      to_hex (subarray (subarray quote (rtmr0_off + 4 * reg) (rtmr0_off + 4 * reg + 64)) 0 32);
}

-- `none` is the error of a quote that is too short.
unfoldable pub tdx_measurements : List ℕ → Option TdxMeasurements
tdx_measurements quote =
    if ltb (length quote) (rtmr0_off + 4 * reg + 64) then none else some (measurements_of quote)

abbrev pub is_lower_hex : ℕ → Bool
is_lower_hex c = (leb 48 c && leb c 57) || (leb 97 c && leb c 102)

-- The text is n bytes of the quote, at an offset, in lower-case hexadecimal, from which fromHex reads
-- them back.
pub record IsHexOf (quote : List ℕ) (off n : ℕ) (t : Text) : Type 0 where
  pub digits : All (λ c. is_lower_hex c ≡ true) t
  pub size : length t ≡ 2 * n
  pub read : from_hex t ≡ take n (drop off quote)

hex_digit-lower : (d : ℕ) → d < 16 → is_lower_hex (hex_digit d) ≡ true
unfolding hex_digit
hex_digit-lower d h = ground arith

to_hex-lower : (bs : List ℕ) → All IsByte bs → All (λ c. is_lower_hex c ≡ true) (to_hex bs)
unfolding to_hex
to_hex-lower [] h = tt
to_hex-lower (b ∷ bs) h = (
  hex_digit-lower (b / 16) (omega (arith, h.0)),
  (hex_digit-lower (b % 16) (omega arith), to_hex-lower bs h.1),
)

All-drop : (n : ℕ) (bs : List ℕ) → All IsByte bs → All IsByte (drop n bs)
All-drop zero bs h = h
All-drop (suc n) [] h = tt
All-drop (suc n) (b ∷ bs) h = All-drop n bs h.1

take_shorter : (n m : ℕ) (bs : List ℕ) → n ≤ m → take n (take m bs) ≡ take n bs
take_shorter zero m bs h = refl
take_shorter (suc n) zero bs h = absurd (omega (arith, h))
take_shorter (suc n) (suc m) [] h = refl
take_shorter (suc n) (suc m) (b ∷ bs) h = ap (◌∷◌ b) (take_shorter n m bs (omega (arith, h)))

-- the bytes in a quote that reaches beyond them
bytes-IsHexOf :
    (quote : List ℕ) (off n : ℕ)
    → All IsByte quote
    → off + n ≤ length quote
    → IsHexOf quote off n (to_hex (take n (drop off quote)))
bytes-IsHexOf quote off n bytes long =
    let part : All IsByte (take n (drop off quote)) =
      All-take IsByte n (drop off quote) (All-drop off quote bytes) in
    record {
      digits = to_hex-lower (take n (drop off quote)) part;
      size = omega (
        arith,
        length-to_hex (take n (drop off quote)),
        length-take n (drop off quote),
        length-drop off quote,
        long,
      );
      read = from_hex-to_hex (take n (drop off quote)) part;
    }

register-IsHexOf :
    (quote : List ℕ) (off : ℕ)
    → All IsByte quote
    → off + 48 ≤ length quote
    → IsHexOf quote off 48 (register_at quote off)
unfolding register_at subarray
register-IsHexOf quote off bytes long =
    let whole : off + reg - off ≡ 48 = omega arith in
    subst (λ n. IsHexOf quote off 48 (to_hex (take n (drop off quote)))) (sym whole)
      (bytes-IsHexOf quote off 48 bytes long)

-- The measurements of a quote: its registers stand at bytes 184, 376, 424, 472 and 520, the challenge
-- at 568, and what is pinned is the first four of them in a row.
pub record IsMeasured (quote : List ℕ) (m : TdxMeasurements) : Type 0 where
  pub mr_td : IsHexOf quote 184 48 m.mr_td
  pub rtmr0 : IsHexOf quote 376 48 m.rtmr0
  pub rtmr1 : IsHexOf quote 424 48 m.rtmr1
  pub rtmr2 : IsHexOf quote 472 48 m.rtmr2
  pub rtmr3 : IsHexOf quote 520 48 m.rtmr3
  pub challenge : IsHexOf quote 568 32 m.report_data_challenge
  pub pinned : m.aggregate ≡ m.mr_td ++ (m.rtmr0 ++ (m.rtmr1 ++ m.rtmr2))

challenge-IsHexOf :
    (quote : List ℕ)
    → All IsByte quote
    → 632 ≤ length quote
    → IsHexOf quote 568 32 (to_hex (subarray (subarray quote 568 632) 0 32))
unfolding subarray
challenge-IsHexOf quote bytes long =
    subst (λ bs. IsHexOf quote 568 32 (to_hex bs))
      (sym (take_shorter 32 64 (drop 568 quote) (omega arith)))
      (bytes-IsHexOf quote 568 32 bytes (omega (arith, long)))

-- A quote of at least 632 bytes has measurements: each register is the lower-case hexadecimal of its
-- 48 bytes and the challenge that of its 32, from which fromHex reads them back, at the offsets of
-- the TDX report, and the aggregate that is pinned is mrTd and the first three runtime registers.
pub tdx_measurements-IsMeasured :
    (quote : List ℕ)
    → All IsByte quote
    → 632 ≤ length quote
    → (m : TdxMeasurements) × (tdx_measurements quote ≡ some m) × IsMeasured quote m
unfolding tdx_measurements measurements_of
tdx_measurements-IsMeasured quote bytes long = (
  measurements_of quote,
  ground arith,
  record {
    mr_td = register-IsHexOf quote 184 bytes (omega (arith, long));
    rtmr0 = register-IsHexOf quote 376 bytes (omega (arith, long));
    rtmr1 = register-IsHexOf quote 424 bytes (omega (arith, long));
    rtmr2 = register-IsHexOf quote 472 bytes (omega (arith, long));
    rtmr3 = register-IsHexOf quote 520 bytes (omega (arith, long));
    challenge = challenge-IsHexOf quote bytes long;
    pinned = refl;
  },
)
