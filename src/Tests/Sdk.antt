-- ===== src/Tests/Sdk.antt =====
-- The protocol package with a platform of constant answers.
use caladon.Sdk.Client.Guard.{IsGuarded, handshake-IsGuarded}
use caladon.Prelude.{false}
use caladon.Sdk.Client.Laws.{IsBound}
use caladon.Sdk.Client.Laws.{handshake-IsBound}
use caladon.Sdk.Chat.Laws.{chat-empty}
use caladon.Sdk.Chat.{ChatResult, chat}
use caladon.Sdk.Session.{◌>>=◌, done}
use caladon.Sdk.Bytes.Hex.{from_hex-to_hex}
use caladon.Sdk.Bytes.Base64.{IsStandard, from_base64-to_base64}
use caladon.Sdk.Text.{codes}
use caladon.Sdk.Quote.{IsMeasured, TdxMeasurements, tdx_measurements, tdx_measurements-IsMeasured}
use caladon.Sdk.Bytes.{encode_b64, IsByte, from_base64, from_hex, to_base64, to_hex}
use caladon.Sdk.Envelope.{
  Crypto, Envelope, alg_tag, from_wire-to_wire, from_wire_envelope, to_wire_envelope,
}
use caladon.Sdk.Protocol.{AttestationEvidence, ClientSettings, Verdict, settings_of}
use caladon.Sdk.Session.{Client, Platform}
use caladon.Sdk.Client.{handshake, HandshakeResult, same_text, unless_skip}
use caladon.Prelude.{
  ℕ, true, none, some, List, [], ◌∷◌, ◌≡◌, refl, ap, sym, ◌∙◌, arith, All, length, suc, zero, ◌≢◌,
}

abbrev repeat : ℕ → ℕ → List ℕ
repeat zero b = []
repeat (suc n) b = b ∷ repeat n b

abbrev three_bytes : List ℕ
three_bytes = 1 ∷ 2 ∷ 255 ∷ []

abbrev three_IsByte : All IsByte three_bytes
three_IsByte = (omega arith, (omega arith, (omega arith, tt)))

repeat-IsByte : (n : ℕ) → All IsByte (repeat n 7)
repeat-IsByte zero = tt
repeat-IsByte (suc n) = (omega arith, repeat-IsByte n)

length-repeat : (n b : ℕ) → length (repeat n b) ≡ n
length-repeat zero b = refl
length-repeat (suc n) b = omega (arith, length-repeat n b)

from_hex-to_hex_example : from_hex (to_hex three_bytes) ≡ three_bytes
from_hex-to_hex_example = from_hex-to_hex three_bytes three_IsByte

from_base64-to_base64_example : from_base64 none (to_base64 none three_bytes) ≡ some three_bytes
from_base64-to_base64_example = from_base64-to_base64 three_bytes three_IsByte

abbrev crypto : Crypto
crypto = record {
  sha256 = λ bs. repeat 32 9;
  utf8 = λ t. t;
  decimal = λ n. codes "1";
  btoa = some encode_b64;
  atob = some (from_base64 none);
}

some-injective : {A : Type 0} {x y : A} → some x ≡ some y → x ≡ y
some-injective h = cc

crypto-IsStandard : IsStandard crypto.btoa crypto.atob
unfolding to_base64
crypto-IsStandard = record {
  writes = λ f h bs b. ap (λ g. g bs) (sym (some-injective h));
  reads =
      λ g h bs b. ap (λ k. k (encode_b64 bs)) (sym (some-injective h)) ∙ from_base64-to_base64 bs b;
}

from_wire-to_wire_example :
    (e : Envelope) × (to_wire_envelope crypto
        (repeat 40 7)
        (codes "acct")
        (codes "chat")
        1
        (codes "chat")
      ≡ some e)
    × (from_wire_envelope crypto e ≡ some (repeat 40 7))
    × (e.v ≡ 1)
    × (e.alg ≡ alg_tag)
    × (e.kid ≡ codes "chat")
from_wire-to_wire_example =
    from_wire-to_wire crypto (repeat 40 7) (codes "acct") (codes "chat") (codes "chat") 1
      crypto-IsStandard (repeat-IsByte 40) (omega arith)

tdx_measurements-IsMeasured_example :
    (m : TdxMeasurements) × (tdx_measurements (repeat 632 7) ≡ some m) × IsMeasured (repeat 632 7) m
tdx_measurements-IsMeasured_example =
    tdx_measurements-IsMeasured (repeat 632 7) (repeat-IsByte 632)
      (omega (arith, length-repeat 632 7))

abbrev evidence : AttestationEvidence
evidence = record {
  challenge = codes "cc";
  intel_quote = some (codes "0b");
  quote = none;
  info_json = codes "{}";
  session_pub = some (codes "AQL/");
}

abbrev passed_verdict : Verdict
passed_verdict = record { passed = true; reason = codes "ok"; measurement_matched = true }

abbrev platform : Platform
platform = record {
  crypto = crypto;
  from_utf8 = λ bs. bs;
  argon2id = λ seed salt ops mem. some seed;
  account_id = λ root. codes "acct";
  ed25519_public = λ root. root;
  x25519_public = λ priv. priv;
  passkey_unwrap_seed = λ prf wrapped. some wrapped;
  authorization_header = λ root account ts m path. codes "auth";
  challenge_hex = λ pub_key. codes "cc";
  verify_quote_sync = λ q c i n ch pub_key pinned. some passed_verdict;
  derive_session_key = λ priv peer a b. some three_bytes;
  wmk = λ root. root;
  seal_wmk = λ sk w account v. some (repeat 40 7);
  seal_chat = λ sk text account v. some (repeat 40 7);
  open_chat = λ sk sealed account v. some sealed;
  parse_evidence = λ t. some evidence;
  parse_delta = λ t. none;
  fetch = λ n r. some (record { status = 200; text = codes "body" });
  now_secs = λ n. n;
  random_bytes = λ n. three_bytes;
  collateral = λ n q. some (codes "{}");
}

abbrev settings : ClientSettings
settings = settings_of (record {
  shim_base = none;
  argon2id_opslimit = none;
  argon2id_memlimit_bytes = none;
  salt = none;
  pinned = some (record { measurements = []; compose_hashes = []; workload_ids = [] });
  attestation_policy = none;
})

abbrev new_client : Client
new_client = record { identity = none; session_key = none; sent = []; asked = 0 }

abbrev shaken : HandshakeResult
shaken = record {
  identity = record {
    root = three_bytes;
    account_id = codes "acct";
    ed25519_pub_b64 = codes "AQL/";
  };
  evidence = evidence;
  verdict = some passed_verdict;
  session_key = three_bytes;
}

abbrev shaken_client : Client
shaken_client = (handshake platform settings three_bytes new_client).1

handshake-IsBound_example : IsBound platform settings shaken shaken_client
unfolding handshake ◌>>=◌ from_base64 to_base64 to_wire_envelope from_hex same_text settings_of
    unless_skip
handshake-IsBound_example =
    handshake-IsBound platform settings refl three_bytes shaken new_client shaken_client refl

-- The core refuses every quote.
abbrev refusing : Platform
refusing = record platform {
  verify_quote_sync = λ q c i n ch pub_key pinned.
      some (record {
        passed = false;
        reason = codes "QUOTE_SIG_INVALID";
        measurement_matched = false;
      });
}

handshake-IsGuarded_example :
    IsGuarded refusing settings new_client (handshake refusing settings three_bytes new_client).1
unfolding settings_of
handshake-IsGuarded_example = handshake-IsGuarded refusing settings refl three_bytes new_client

abbrev empty_result : ChatResult
empty_result = record { reply = []; reasoning_text = []; deltas = []; raw_bytes = 4 }

chat-empty_example :
    chat platform settings [] none shaken_client ≢ (done empty_result, shaken_client)
chat-empty_example = chat-empty platform settings none empty_result shaken_client shaken_client
