-- ===== src/Sdk/Envelope.antt =====
-- web-client/caladon/src/envelope.ts: the envelope on the wire. SHA-256 is WebCrypto's and UTF-8 the
-- platform's: they are the parameter `crypto`.
use caladon.Sdk.Bytes.Base64.{IsStandard, from_base64-standard}
use caladon.Sdk.Bytes.{IsByte, concat_bytes, from_base64, to_base64}
use caladon.Prelude.{
  ap, ap₂, ◌∙◌, All, All-take, List, Option, [], arith, drop, if◌then◌else◌, length, ltb, none,
  refl, some, suc, take, take-append-drop, zero, ℕ, ◌++◌, ◌∷◌, ◌≡◌, ◌≤◌,
}
use caladon.Sdk.Text.{Text, codes}

pub record Crypto : Type 0 where
  pub sha256 : List ℕ → List ℕ
  pub utf8 : Text → List ℕ
  -- the digits of a number in a template literal
  pub decimal : ℕ → Text
  -- btoa and atob, where the platform has them
  pub btoa : Option (List ℕ → Text)
  pub atob : Option (Text → Option (List ℕ))

-- The interface Envelope of types.ts.
pub record Envelope : Type 0 where
  pub v : ℕ
  pub alg : Text
  pub kid : Text
  pub nonce : Text
  pub aad : Text
  pub ct : Text

-- constants.ts
abbrev pub alg_tag : Text
alg_tag = codes "xchacha20poly1305"

abbrev pub nonce_len : ℕ
nonce_len = 24

abbrev pub newline : ℕ
newline = 10

module _ (crypto : Crypto) where
  -- sha256(utf8(`${accountId}\n${purpose}\n${v}`))
  unfoldable pub aad_of : Text → Text → ℕ → List ℕ
  aad_of account_id purpose v =
      crypto.sha256 (crypto.utf8 (account_id ++ newline ∷ (purpose ++ newline ∷ crypto.decimal v)))

  -- `none` is the error of a payload shorter than the nonce.
  unfoldable pub to_wire_envelope : List ℕ → Text → Text → ℕ → Text → Option Envelope
  unfolding aad_of
  to_wire_envelope nonce_ct account_id purpose v kid =
      if ltb (length nonce_ct) nonce_len
      then none
      else some (record {
        v = v;
        alg = alg_tag;
        kid = kid;
        nonce = to_base64 crypto.btoa (take nonce_len nonce_ct);
        aad = to_base64 crypto.btoa (aad_of account_id purpose v);
        ct = to_base64 crypto.btoa (drop nonce_len nonce_ct);
      })

  -- concatBytes of what fromBase64 returns, or a throw of atob
  abbrev pub joined : Option (List ℕ) → Option (List ℕ) → Option (List ℕ)
  joined none ct = none
  joined (some nonce) none = none
  joined (some nonce) (some ct) = some (concat_bytes nonce ct)

  unfoldable pub from_wire_envelope : Envelope → Option (List ℕ)
  unfolding concat_bytes from_base64
  from_wire_envelope env =
      joined (from_base64 crypto.atob env.nonce) (from_base64 crypto.atob env.ct)

All-drop : (n : ℕ) (bs : List ℕ) → All IsByte bs → All IsByte (drop n bs)
All-drop zero bs h = h
All-drop (suc n) [] h = tt
All-drop (suc n) (b ∷ bs) h = All-drop n bs h.1

-- Sealing output of at least the nonce's length becomes an envelope with the algorithm tag, the
-- version and the key id given, from which the same bytes are recovered, whether or not the platform
-- has btoa and atob, if they are base64 where it has them.
pub from_wire-to_wire :
    (crypto : Crypto) (nonce_ct : List ℕ) (account_id purpose kid : Text) (v : ℕ)
    → IsStandard crypto.btoa crypto.atob
    → All IsByte nonce_ct
    → nonce_len ≤ length nonce_ct
    → (e : Envelope) × (to_wire_envelope crypto nonce_ct account_id purpose v kid ≡ some e)
      × (from_wire_envelope crypto e ≡ some nonce_ct)
      × (e.v ≡ v)
      × (e.alg ≡ alg_tag)
      × (e.kid ≡ kid)
unfolding to_wire_envelope from_wire_envelope concat_bytes
from_wire-to_wire crypto nonce_ct account_id purpose kid v standard bytes long = (
  record {
    v = v;
    alg = alg_tag;
    kid = kid;
    nonce = to_base64 crypto.btoa (take nonce_len nonce_ct);
    aad = to_base64 crypto.btoa (aad_of crypto account_id purpose v);
    ct = to_base64 crypto.btoa (drop nonce_len nonce_ct);
  },
  ground arith,
  ap₂ (joined crypto)
        (from_base64-standard crypto.btoa crypto.atob (take nonce_len nonce_ct) standard
          (All-take IsByte nonce_len nonce_ct bytes))
        (from_base64-standard crypto.btoa crypto.atob (drop nonce_len nonce_ct) standard
          (All-drop nonce_len nonce_ct bytes))
      ∙ ap some (take-append-drop nonce_len nonce_ct),
  refl,
  refl,
  refl,
)
