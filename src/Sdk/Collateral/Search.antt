-- ===== src/Sdk/Collateral/Search.antt =====
-- collateral.ts, findOidValueOctetString: where the value that is found stands.
use caladon.Prelude.{
  ◌≡◌, ◌≢◌, Option-cases, refl, sym, ap, ap₂, ◌∙◌, arith, ℕ, suc, ◌+◌, true, not, eqb, ltb,
  Bool-cases, inl, inr, none, some, List, [], ◌∷◌, ◌++◌, length, take, drop, take-append-drop,
}
use caladon.Sdk.Collateral.{Span, bytes_equal, read_span, is_oid, octet_string, find_oid_value}

bytes_equal_lem : (xs ys : List ℕ) → bytes_equal xs ys ≡ true → xs ≡ ys
unfolding bytes_equal
bytes_equal_lem [] [] h = refl
bytes_equal_lem [] (y ∷ ys) h = absurd (ground arith)
bytes_equal_lem (x ∷ xs) [] h = absurd (ground arith)
bytes_equal_lem (x ∷ xs) (y ∷ ys) h = ap₂ ◌∷◌ (ground arith) (bytes_equal_lem xs ys (ground arith))

-- The span is that of an OCTET STRING that directly follows the identifier's own encoding: the bytes
-- are `before`, the tag 6, the identifier's length and bytes, the tag 4, and `after`.
pub record IsValueOf (oid : List ℕ) (off : ℕ) (b : List ℕ) (x : Span) : Type 0 where
  pub before : List ℕ
  pub after : List ℕ
  pub bytes : b ≡ before ++ 6 ∷ length oid ∷ (oid ++ 4 ∷ after)
  pub span : x ≡ read_span (off + length before + 2 + length oid) after

span_injective : (x y : Span) → some y ≡ some x → x ≡ y
span_injective x y h = cc

octet_string_lem :
    (off : ℕ) (s : List ℕ) (x : Span)
    → octet_string off s ≡ some x
    → (rest : List ℕ) × (s ≡ 4 ∷ rest) × (x ≡ read_span off rest)
unfolding octet_string
octet_string_lem off [] x h = absurd (ground arith)
octet_string_lem off (t ∷ s) x h = elim (Bool-cases (eqb t 4)) [
  | inl yes4 ↦
      (s, ap (λ c. c ∷ s) (ground arith), span_injective x (read_span off s) (rw yes4 at h))
  | inr not4 ↦ absurd (ground arith)
]

none-some : (x : Span) → none ≢ some x
none-some x h = ground arith

drop_two : (n t l : ℕ) (s : List ℕ) → drop (2 + n) (t ∷ l ∷ s) ≡ drop n s
drop_two n t l s = let two : 2 + n ≡ suc (suc n) = omega arith in ap (λ k. drop k (t ∷ l ∷ s)) two

is_oid_lem :
    (oid s : List ℕ) → is_oid oid s ≡ true → s ≡ 6 ∷ length oid ∷ (oid ++ drop (2 + length oid) s)
unfolding is_oid
is_oid_lem oid [] h = absurd (ground arith)
is_oid_lem oid (t ∷ []) h = absurd (ground arith)
is_oid_lem oid (t ∷ l ∷ s) h =
    let same : take (length oid) s ≡ oid =
      bytes_equal_lem (take (length oid) s) oid (ground arith) in
    rw (drop_two (length oid) t l s) (
      ap₂ ◌∷◌ (ground arith) (
        ap₂ ◌∷◌ (ground arith)
          (sym (take-append-drop (length oid) s) ∙ ap (λ xs. xs ++ drop (length oid) s) same)))

found_here :
    (oid : List ℕ) (off : ℕ) (b : List ℕ) (x : Span)
    → is_oid oid b ≡ true
    → octet_string (off + 2 + length oid) (drop (2 + length oid) b) ≡ some x
    → IsValueOf oid off b x
found_here oid off b x here found =
    let (rest, eq, span) =
      octet_string_lem (off + 2 + length oid) (drop (2 + length oid) b) x found in
    record {
      before = [];
      after = rest;
      bytes = is_oid_lem oid b here ∙ ap (λ r. 6 ∷ length oid ∷ (oid ++ r)) eq;
      span = span ∙ ap (λ n. read_span n rest) (omega arith);
    }

found_later :
    (oid : List ℕ) (off c : ℕ) (b : List ℕ) (x : Span)
    → IsValueOf oid (suc off) b x
    → IsValueOf oid off (c ∷ b) x
found_later oid off c b x v = record {
  before = c ∷ v.before;
  after = v.after;
  bytes = ap (◌∷◌ c) v.bytes;
  span = v.span ∙ ap (λ n. read_span n v.after) (omega arith);
}

-- The value that findOidValueOctetString returns, at an offset of `off`, is that of an OCTET STRING
-- that directly follows the whole encoding of the identifier, tag and length included, somewhere in
-- the bytes.
pub find_oid_value-IsValueOf :
    (oid : List ℕ) (off : ℕ) (b : List ℕ) (x : Span)
    → find_oid_value oid off b ≡ some x
    → IsValueOf oid off b x
unfolding find_oid_value
find_oid_value-IsValueOf oid off [] x h = absurd (ground arith)
find_oid_value-IsValueOf oid off (c ∷ s) x h =
    elim (Bool-cases (not (ltb (2 + length oid) (suc (length s))))) [
      | inl short ↦ absurd (none-some x (rw short at h))
      | inr room ↦ elim (Bool-cases (is_oid oid (c ∷ s))) [
        | inl here ↦
            elim (Option-cases
              (octet_string (off + 2 + length oid) (drop (2 + length oid) (c ∷ s)))) [
                | inl other ↦
                    found_later oid off c s x
                      (find_oid_value-IsValueOf oid (suc off) s x (rw (room, here, other) at h))
                | inr (y, found) ↦
                    found_here oid off (c ∷ s) x here (found ∙ (rw (room, here, found) at h))
              ]
        | inr nope ↦
            found_later oid off c s x
              (find_oid_value-IsValueOf oid (suc off) s x (rw (room, nope) at h))
      ]
    ]
