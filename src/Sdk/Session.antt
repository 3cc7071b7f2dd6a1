-- ===== src/Sdk/Session.antt =====
-- web-client/caladon/src/client.ts: the state of a CaladonClient and its calls as actions that may
-- throw. The WASM core, the network, JSON, the clock, the random source and the collateral fetch
-- are the parameter `platform`.
use caladon.Sdk.Text.{Text}
use caladon.Sdk.Envelope.{Crypto, Envelope}
use caladon.Sdk.Protocol.{
  AttestationEvidence, ChatBody, Identity, OnboardBody, PinnedSet, SessionBody, Verdict,
}
use caladon.Prelude.{ℕ, Bool, Option, none, some, List}

pub data Method : Type 0 where
  get post : Method

-- The value that JSON.stringify prints.
pub data Body : Type 0 where
  no_body : Body
  onboard_body : OnboardBody → Body
  session_body : SessionBody → Body
  chat_body : ChatBody → Body

pub record Request : Type 0 where
  pub method : Method
  pub relay : Text
  pub url : Text
  pub authorization : Text
  pub body : Body
  pub is_stream : Bool

pub record Reply : Type 0 where
  pub status : ℕ
  pub text : Text

-- `none` is a throw.
pub record Platform : Type 0 where
  pub crypto : Crypto
  pub from_utf8 : List ℕ → Text
  pub argon2id : List ℕ → List ℕ → ℕ → ℕ → Option (List ℕ)
  pub account_id : List ℕ → Text
  pub ed25519_public : List ℕ → List ℕ
  pub x25519_public : List ℕ → List ℕ
  pub passkey_unwrap_seed : List ℕ → List ℕ → Option (List ℕ)
  pub authorization_header : List ℕ → Text → ℕ → Method → Text → Text
  pub challenge_hex : List ℕ → Text
  pub verify_quote_sync : List ℕ → Text → Text → ℕ → Text → List ℕ → PinnedSet → Option Verdict
  pub derive_session_key : List ℕ → List ℕ → List ℕ → List ℕ → Option (List ℕ)
  pub wmk : List ℕ → List ℕ
  pub seal_wmk : List ℕ → List ℕ → Text → ℕ → Option (List ℕ)
  pub seal_chat : List ℕ → List ℕ → Text → ℕ → Option (List ℕ)
  pub open_chat : List ℕ → List ℕ → Text → ℕ → Option (List ℕ)
  -- JSON.parse, read as evidence, and as a delta with its `envelope`
  pub parse_evidence : Text → Option AttestationEvidence
  pub parse_delta : Text → Option Envelope
  -- the answers to the n-th request, clock reading or draw of random bytes
  pub fetch : ℕ → Request → Option Reply
  pub now_secs : ℕ → ℕ
  pub random_bytes : ℕ → List ℕ
  -- JSON.stringify of the quote's collateral, from the provider or the PCS proxy
  pub collateral : ℕ → List ℕ → Option Text

pub data ClientError : Type 0 where
  no_identity no_ed25519_pub no_session_key no_quote no_session_pub no_pinned : ClientError
  challenge_not_bound leak envelope_too_short platform_threw : ClientError
  bad_status : ℕ → ClientError
  attestation_failed : Verdict → ClientError

pub data Attempt (A : Type 0) : Type 0 where
  done : A → Attempt A
  failed : ClientError → Attempt A

-- The private fields, the requests sent so far in order, and the number of questions asked of the
-- platform.
pub record Client : Type 0 where
  pub identity : Option Identity
  pub session_key : Option (List ℕ)
  pub sent : List Request
  pub asked : ℕ

abbrev pub Call : Type 0 → Type 0
Call A = Client → Attempt A × Client

abbrev pub give : {A : Type 0} → A → Call A
give a c = (done a, c)

abbrev pub fail : {A : Type 0} → ClientError → Call A
fail e c = (failed e, c)

-- A value, or the error where there is none.
abbrev pub given : {A : Type 0} → ClientError → Option A → Call A
given e none c = (failed e, c)
given e (some a) c = (done a, c)

module _ {A B : Type 0} where
  abbrev pub follow : Attempt A → (A → Call B) → Call B
  follow (done a) f c = f a c
  follow (failed e) f c = (failed e, c)

  infixl 5 ◌>>=◌ ◌>>◌
  unfoldable pub ◌>>=◌ : Call A → (A → Call B) → Call B
  ◌>>=◌ m f c = let (r, c') = m c in follow r f c'

  unfoldable pub ◌>>◌ : Call A → Call B → Call B
  unfolding ◌>>=◌
  ◌>>◌ m k = m >>= λ _. k
