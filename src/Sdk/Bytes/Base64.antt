-- ===== src/Sdk/Bytes/Base64.antt =====
-- bytes.ts: base64 there and back, by the code's own loops.
-- The characters at the 64 indices are distinct, and none of them is the padding.
use caladon.Sdk.Text.{Text}
use caladon.Sdk.Bytes.{
  b64_char, b64_chars, index_from, decode_b64, push_index, IsByte, encode_b64, from_base64,
  join_pad, strip_pad, to_base64,
}
use caladon.Prelude.{
  Bool, Option, arith, eqb, false, none, refl, some, suc, true, zero, ℕ, ◌&&◌, ◌<◌, ◌≡◌,
  if◌then◌else◌, leb, ◌%◌, ◌*◌, ◌+◌, ◌-◌, ◌/◌, ◌^◌, ◌∷◌, [], ap, ap₂, ◌∙◌, All, List, not,
}

-- A test of all the numbers under a bound, the largest last.
each_index : (ℕ → Bool) → ℕ → Bool
each_index test zero = true
each_index test (suc bound) = each_index test bound && test bound

each_index-at :
    (test : ℕ → Bool) (bound i : ℕ) → i < bound → each_index test bound ≡ true → test i ≡ true
unfolding each_index
each_index-at test zero i under passes = absurd (omega arith)
each_index-at test (suc bound) i under passes = ground (arith, each_index-at test bound i)

is_index : Option ℕ → ℕ → Bool
is_index none i = false
is_index (some j) i = eqb j i

index_table : each_index (λ i. is_index (index_from 0 b64_chars (b64_char i)) i) 64 ≡ true
unfolding each_index is_index index_from b64_char
index_table = refl

is_index-eq : (o : Option ℕ) (i : ℕ) → is_index o i ≡ true → o ≡ some i
unfolding is_index
is_index-eq none i h = cc
is_index-eq (some j) i h = ground arith

pub index_from-b64_char : (i : ℕ) → i < 64 → index_from 0 b64_chars (b64_char i) ≡ some i
index_from-b64_char i h =
    is_index-eq _ i
      (each_index-at (λ i. is_index (index_from 0 b64_chars (b64_char i)) i) 64 i h index_table)

-- One character of the loop.
decode_step :
    (bits val i : ℕ) (s : Text)
    → i < 64
    → decode_b64 bits val (b64_char i ∷ s) ≡ (
        let val' = val * 64 % 2 ^ 32 + i in
        let rest = decode_b64 (if leb 8 (bits + 6) then bits + 6 - 8 else bits + 6) val' s in
        if leb 8 (bits + 6) then (val' / 2 ^ (bits + 6 - 8) % 256) ∷ rest else rest)
unfolding decode_b64 push_index
decode_step bits val i s h = rw (index_from-b64_char i h)

low_bits : (v i : ℕ) → i < 64 → (v * 64 % 2 ^ 32 + i) % 4096 ≡ v % 64 * 64 + i
low_bits v i h = omega arith

mod_64 : (v i : ℕ) → i < 64 → (v * 64 % 2 ^ 32 + i) % 64 ≡ i
mod_64 v i h = omega arith

first_byte : (v i j : ℕ) → i < 64 → j < 64 → v % 4096 ≡ i * 64 + j → v / 16 % 256 ≡ i * 4 + j / 16
first_byte v i j hi hj h = omega arith

second_byte :
    (v j k : ℕ) → j < 64 → k < 64 → v % 4096 ≡ j * 64 + k → v / 4 % 256 ≡ j % 16 * 16 + k / 4
second_byte v j k hj hk h = omega arith

third_byte : (v k l : ℕ) → k < 64 → l < 64 → v % 4096 ≡ k * 64 + l → v / 1 % 256 ≡ k % 4 * 64 + l
third_byte v k l hk hl h = omega arith

-- The low bits after two characters are the two indices.
two_low :
    (v i j : ℕ) → i < 64 → j < 64 → ((v * 64 % 2 ^ 32 + i) * 64 % 2 ^ 32 + j) % 4096 ≡ i * 64 + j
two_low v i j hi hj =
    low_bits (v * 64 % 2 ^ 32 + i) j hj ∙ ap (λ (n : ℕ). n * 64 + j) (mod_64 v i hi)

-- Four characters, read from no bits left, are three bytes.
decode_four :
    (val i j k l : ℕ) (s : Text)
    → i < 64
    → j < 64
    → k < 64
    → l < 64
    → (val' : ℕ) × (decode_b64 0 val (b64_char i ∷ b64_char j ∷ b64_char k ∷ b64_char l ∷ s)
        ≡ (i * 4 + j / 16) ∷ (j % 16 * 16 + k / 4) ∷ (k % 4 * 64 + l) ∷ decode_b64 0 val' s)
decode_four val i j k l s hi hj hk hl =
    let v1 = val * 64 % 2 ^ 32 + i in
    let v2 = v1 * 64 % 2 ^ 32 + j in
    let v3 = v2 * 64 % 2 ^ 32 + k in
    let v4 = v3 * 64 % 2 ^ 32 + l in
    (
      v4,
      rw
          (
            decode_step 0 val i _ hi,
            decode_step 6 v1 j _ hj,
            decode_step 4 v2 k _ hk,
            decode_step 2 v3 l s hl,
          )
          (ap₂ ◌∷◌ (first_byte v2 i j hi hj (two_low val i j hi hj)) (
            ap₂ ◌∷◌ (second_byte v3 j k hj hk (two_low v1 j k hj hk))
              (ap₂ ◌∷◌ (third_byte v4 k l hk hl (two_low v2 k l hk hl)) refl))),
    )

-- Two and three characters at the end are one and two bytes; the bits that are left are dropped.
decode_two :
    (val i j : ℕ)
    → i < 64
    → j < 64
    → decode_b64 0 val (b64_char i ∷ b64_char j ∷ []) ≡ (i * 4 + j / 16) ∷ []
unfolding decode_b64
decode_two val i j hi hj =
    rw (decode_step 0 val i _ hi, decode_step 6 (val * 64 % 2 ^ 32 + i) j [] hj)
      (ap₂ ◌∷◌
        (first_byte ((val * 64 % 2 ^ 32 + i) * 64 % 2 ^ 32 + j) i j hi hj (two_low val i j hi hj))
        refl)

decode_three :
    (val i j k : ℕ)
    → i < 64
    → j < 64
    → k < 64
    → decode_b64 0 val (b64_char i ∷ b64_char j ∷ b64_char k ∷ [])
      ≡ (i * 4 + j / 16) ∷ (j % 16 * 16 + k / 4) ∷ []
unfolding decode_b64
decode_three val i j k hi hj hk =
    let v1 = val * 64 % 2 ^ 32 + i in
    let v2 = v1 * 64 % 2 ^ 32 + j in
    rw (decode_step 0 val i _ hi, decode_step 6 v1 j _ hj, decode_step 4 v2 k [] hk)
      (ap₂ ◌∷◌ (first_byte v2 i j hi hj (two_low val i j hi hj))
        (ap₂ ◌∷◌ (second_byte (v2 * 64 % 2 ^ 32 + k) j k hj hk (two_low v1 j k hj hk)) refl))

encode_four :
    (a b c : ℕ)
    → a < 256
    → b < 256
    → c < 256
    → ((a / 4) * 4 + (a % 4 * 16 + b / 16) / 16 ≡ a)
      × ((a % 4 * 16 + b / 16) % 16 * 16 + (b % 16 * 4 + c / 64) / 4 ≡ b)
      × ((b % 16 * 4 + c / 64) % 4 * 64 + c % 64 ≡ c)
encode_four a b c ha hb hc = omega arith

-- No character of an index is the padding.
pad_table : each_index (λ i. not (eqb (b64_char i) b'=')) 64 ≡ true
unfolding each_index b64_char
pad_table = refl

not_pad : (i : ℕ) → i < 64 → not (eqb (b64_char i) b'=') ≡ true
not_pad i h = each_index-at (λ i. not (eqb (b64_char i) b'=')) 64 i h pad_table

join_pad-char : (i : ℕ) (s : Text) → i < 64 → join_pad (b64_char i) s ≡ b64_char i ∷ s
unfolding join_pad
join_pad-char i [] h = ground (arith, not_pad i h)
join_pad-char i (c ∷ s) h = refl

-- The encoding without its padding.
unfoldable pub encode_unpadded : List ℕ → Text
encode_unpadded [] = []
encode_unpadded (a ∷ []) = b64_char (a / 4) ∷ b64_char (a % 4 * 16) ∷ []
encode_unpadded (a ∷ b ∷ []) =
    b64_char (a / 4) ∷ b64_char (a % 4 * 16 + b / 16) ∷ b64_char (b % 16 * 4) ∷ []
encode_unpadded (a ∷ b ∷ c ∷ rest) =
    b64_char (a / 4)
    ∷ b64_char (a % 4 * 16 + b / 16)
    ∷ b64_char (b % 16 * 4 + c / 64)
    ∷ b64_char (c % 64)
    ∷ encode_unpadded rest

strip_pad-encode_b64 :
    (bs : List ℕ) → All IsByte bs → strip_pad (encode_b64 bs) ≡ encode_unpadded bs
unfolding strip_pad encode_b64 encode_unpadded
strip_pad-encode_b64 [] h = refl
strip_pad-encode_b64 (a ∷ []) h =
    rw (join_pad-char (a % 4 * 16) [] (omega arith), join_pad-char (a / 4) _ (omega arith))
strip_pad-encode_b64 (a ∷ b ∷ []) h = rw (join_pad-char (b % 16 * 4) [] (omega arith))
strip_pad-encode_b64 (a ∷ b ∷ c ∷ rest) h =
    rw (
      strip_pad-encode_b64 rest h.1.1.1,
      join_pad-char (c % 64) (encode_unpadded rest) (omega arith),
    )

decode-encode : (val : ℕ) (bs : List ℕ) → All IsByte bs → decode_b64 0 val (encode_unpadded bs) ≡ bs
unfolding encode_unpadded
decode-encode val [] h = unfold decode_b64 in refl
decode-encode val (a ∷ []) h =
    decode_two val (a / 4) (a % 4 * 16) (omega arith) (omega arith)
    ∙ ap (λ (n : ℕ). n ∷ []) (omega arith)
decode-encode val (a ∷ b ∷ []) h =
    decode_three val (a / 4) (a % 4 * 16 + b / 16) (b % 16 * 4) (omega arith) (omega arith)
      (omega arith)
    ∙ ap₂ (λ (n m : ℕ). n ∷ m ∷ []) (omega arith) (omega arith)
decode-encode val (a ∷ b ∷ c ∷ rest) h =
    let (val', four) =
      decode_four val (a / 4) (a % 4 * 16 + b / 16) (b % 16 * 4 + c / 64) (c % 64)
        (encode_unpadded rest) (omega arith) (omega arith) (omega arith) (omega arith) in
    let (ea, eb, ec) = encode_four a b c h.0 h.1.0 h.1.1.0 in
    four ∙ rw (ea, eb, ec, decode-encode val' rest h.1.1.1)

-- fromBase64 reads back what toBase64 wrote, by the loops that run where the platform has no btoa
-- and atob, for every array of bytes.
pub from_base64-to_base64 :
    (bs : List ℕ) → All IsByte bs → from_base64 none (to_base64 none bs) ≡ some bs
unfolding from_base64 to_base64
from_base64-to_base64 bs h = rw (strip_pad-encode_b64 bs h) (ap some (decode-encode 0 bs h))

-- What the code relies on of btoa and atob, where the platform has them: btoa writes the same base64 as
-- the loop, and atob reads it back.
pub record IsStandard (btoa : Option (List ℕ → Text)) (atob : Option (Text → Option (List ℕ)))
    : Type 0 where
  pub writes :
      (f : List ℕ → Text) → btoa ≡ some f → (bs : List ℕ) → All IsByte bs → f bs ≡ encode_b64 bs
  pub reads :
      (g : Text → Option (List ℕ))
      → atob ≡ some g
      → (bs : List ℕ) → All IsByte bs
      → g (encode_b64 bs) ≡ some bs

written :
    (btoa : Option (List ℕ → Text)) {atob : Option (Text → Option (List ℕ))} (bs : List ℕ)
    → IsStandard btoa atob
    → All IsByte bs
    → to_base64 btoa bs ≡ encode_b64 bs
unfolding to_base64
written none bs s h = refl
written (some f) bs s h = s.writes f refl bs h

read :
    {btoa : Option (List ℕ → Text)} (atob : Option (Text → Option (List ℕ))) (bs : List ℕ)
    → IsStandard btoa atob
    → All IsByte bs
    → from_base64 atob (encode_b64 bs) ≡ some bs
unfolding from_base64
read none bs s h = rw (strip_pad-encode_b64 bs h) (ap some (decode-encode 0 bs h))
read (some g) bs s h = s.reads g refl bs h

-- fromBase64 reads back what toBase64 wrote, on every platform
pub from_base64-standard :
    (btoa : Option (List ℕ → Text)) (atob : Option (Text → Option (List ℕ))) (bs : List ℕ)
    → IsStandard btoa atob
    → All IsByte bs
    → from_base64 atob (to_base64 btoa bs) ≡ some bs
unfolding from_base64 to_base64
from_base64-standard btoa atob bs s h =
    ap (from_base64 atob) (written btoa bs s h) ∙ read atob bs s h
