-- ===== src/Sdk/Client.antt =====
-- web-client/caladon/src/client.ts: the handshake of a CaladonClient.
pub mod Laws
pub mod Silence
pub mod Guard
use caladon.Sdk.Envelope.{to_wire_envelope}
use caladon.Store.Action.{query}
use caladon.Sdk.Bytes.{from_base64, from_hex, to_base64}
use caladon.Sdk.Text.{Text, codes}
use caladon.Sdk.Session.{
  Body, Call, Method, Platform, Reply, Request, attestation_failed, bad_status, challenge_not_bound,
  done, envelope_too_short, fail, get, give, given, no_body, no_ed25519_pub, no_identity, no_pinned,
  no_quote, no_session_pub, onboard_body, platform_threw, post, session_body,
}
use caladon.Sdk.Protocol.{
  AttestationEvidence, AttestationPolicy, ClientSettings, Identity, Verdict, envelope_v, observe,
  skip, strict, wmk_purpose,
}
use caladon.Sdk.Session.{◌>>=◌}
use caladon.Prelude.{
  ℕ, ◌+◌, Bool, true, false, ◌&&◌, Option, none, some, List, [], ◌∷◌, ◌++◌, eqb, if◌then◌else◌,
}

unfoldable pub same_text : Text → Text → Bool
same_text [] [] = true
same_text [] (d ∷ s) = false
same_text (c ∷ t) [] = false
same_text (c ∷ t) (d ∷ s) = eqb c d && same_text t s

-- A text that is not there or empty is falsy.
abbrev pub truthy : Option Text → Option Text
truthy none = none
truthy (some []) = none
truthy (some (c ∷ t)) = some (c ∷ t)

-- a ?? b
abbrev pub or_else : Option Text → Option Text → Option Text
or_else none b = b
or_else (some a) b = some a

-- text.split('?', 1)[0]
unfoldable pub before_query : Text → Text
before_query [] = []
before_query (c ∷ t) = let rest = before_query t in if eqb c b'?' then [] else c ∷ rest

abbrev pub checked : Verdict → AttestationPolicy → Call (Option Verdict)
checked v strict = if v.passed then give (some v) else fail (attestation_failed v)
checked v observe = give (some v)
checked v skip = give (some v)

-- if (this.cfg.attestationPolicy === 'skip') return null
unfoldable pub unless_skip : AttestationPolicy → Call (Option Verdict) → Call (Option Verdict)
unless_skip strict rest = rest
unless_skip observe rest = rest
unless_skip skip rest = give none

-- if (r.status !== 200) throw
unfoldable pub ok_text : Reply → Call Text
ok_text r = if eqb r.status 200 then give r.text else fail (bad_status r.status)

pub record HandshakeResult : Type 0 where
  pub identity : Identity
  pub evidence : AttestationEvidence
  pub verdict : Option Verdict
  pub session_key : List ℕ

module _ (p : Platform) (cfg : ClientSettings) where
  unfoldable pub now_secs : Call ℕ
  now_secs c = (done (p.now_secs c.asked), record c { asked = c.asked + 1 })

  unfoldable pub random_bytes : Call (List ℕ)
  random_bytes c = (done (p.random_bytes c.asked), record c { asked = c.asked + 1 })

  unfoldable pub collateral_of : List ℕ → Call Text
  collateral_of quote c =
      given platform_threw (p.collateral c.asked quote) (record c { asked = c.asked + 1 })

  -- this.cfg.fetchImpl(url, init)
  unfoldable pub fetch : Request → Call Reply
  fetch r c =
      given platform_threw (p.fetch c.asked r)
        (record c { asked = c.asked + 1; sent = c.sent ++ r ∷ [] })

  unfoldable pub require_identity : Call Identity
  require_identity c = given no_identity c.identity c

  -- this.identity = identity
  unfoldable pub hold_identity : Identity → Call Identity
  hold_identity i c = (done i, record c { identity = some i })

  -- this.sessionKey = sk
  unfoldable pub hold_session_key : List ℕ → Call (List ℕ)
  hold_session_key sk c = (done sk, record c { session_key = some sk })

  unfoldable pub unlock_seed : List ℕ → Call Identity
  unfolding hold_identity
  unlock_seed seed =
      given platform_threw
        (p.argon2id seed (p.crypto.utf8 cfg.salt) cfg.argon2id_opslimit cfg.argon2id_memlimit_bytes)
      >>= λ root. hold_identity (record {
        root = root;
        account_id = p.account_id root;
        ed25519_pub_b64 = to_base64 p.crypto.btoa (p.ed25519_public root);
      })

  unfoldable pub unlock_via_passkey : List ℕ → List ℕ → Call Identity
  unfolding unlock_seed
  unlock_via_passkey prf32 wrapped_seed =
      given platform_threw (p.passkey_unwrap_seed prf32 wrapped_seed) >>= λ seed. unlock_seed seed

  unfoldable pub auth_header : Method → Text → Call Text
  unfolding require_identity now_secs
  auth_header method full_path = require_identity >>= λ ident. now_secs >>= λ ts.
      give (p.authorization_header ident.root ident.account_id ts method (before_query full_path))

  unfoldable pub signed_fetch : Method → Text → Text → Body → Bool → Call Reply
  unfolding auth_header fetch
  signed_fetch method relay_name query body is_stream =
      auth_header method (codes "/v1/" ++ relay_name ++ query) >>= λ authorization. fetch (record {
        method = method;
        relay = relay_name;
        url = cfg.shim_base ++ codes "/" ++ relay_name ++ query;
        authorization = authorization;
        body = body;
        is_stream = is_stream;
      })

  unfoldable pub onboard : Call ℕ
  unfolding require_identity random_bytes signed_fetch
  onboard = require_identity >>= λ ident.
      given no_ed25519_pub (truthy (some ident.ed25519_pub_b64)) >>= λ ed25519_pub.
      random_bytes >>= λ kem_priv.
      signed_fetch post (codes "accounts") []
        (onboard_body (record {
          account_id = ident.account_id;
          ed25519_pub = ed25519_pub;
          kem_pub = to_base64 p.crypto.btoa (p.x25519_public kem_priv);
        }))
        false
      >>= λ r. give r.status

  unfoldable pub get_attestation : List ℕ → Call AttestationEvidence
  unfolding signed_fetch ok_text
  get_attestation eph_pub =
      signed_fetch get (codes "attestation") (codes "?challenge=" ++ p.challenge_hex eph_pub)
        no_body false
      >>= λ r. ok_text r >>= λ txt. given platform_threw (p.parse_evidence txt) >>= λ ev.
          if same_text ev.challenge (p.challenge_hex eph_pub)
          then give ev
          else fail challenge_not_bound

  -- fromBase64, which throws where atob does
  unfoldable pub decoded : Text → Call (List ℕ)
  unfolding from_base64
  decoded b64 = given platform_threw (from_base64 p.crypto.atob b64)

  -- The part of verifyAttestation after its early return.
  unfoldable pub verify_quote : AttestationEvidence → List ℕ → Call (Option Verdict)
  unfolding collateral_of now_secs decoded
  verify_quote ev eph_pub =
      given no_quote (truthy (or_else ev.intel_quote ev.quote)) >>= λ quote_hex.
      collateral_of (from_hex quote_hex) >>= λ collateral. given no_pinned cfg.pinned >>= λ pinned.
      given no_session_pub (truthy ev.session_pub) >>= λ session_pub.
      decoded session_pub >>= λ session_bytes. now_secs >>= λ now.
      given platform_threw (
        p.verify_quote_sync (from_hex quote_hex) collateral ev.info_json now
          (p.challenge_hex eph_pub) session_bytes pinned)
      >>= λ verdict. checked verdict cfg.attestation_policy

  unfoldable pub verify_attestation : AttestationEvidence → List ℕ → Call (Option Verdict)
  unfolding verify_quote
  verify_attestation ev eph_pub = unless_skip cfg.attestation_policy (verify_quote ev eph_pub)

  unfoldable pub establish_session : AttestationEvidence → List ℕ → List ℕ → Call (List ℕ)
  unfolding require_identity signed_fetch ok_text hold_session_key decoded
  establish_session ev eph_priv eph_pub = require_identity >>= λ ident.
      given no_session_pub (truthy ev.session_pub) >>= λ session_pub.
      decoded session_pub >>= λ cvm_pub.
      given platform_threw (p.derive_session_key eph_priv cvm_pub eph_pub cvm_pub) >>= λ sk.
      given platform_threw (p.seal_wmk sk (p.wmk ident.root) ident.account_id envelope_v)
      >>= λ sealed.
          given envelope_too_short
            (to_wire_envelope p.crypto sealed ident.account_id wmk_purpose envelope_v wmk_purpose)
          >>= λ envelope.
              signed_fetch post (codes "session") []
                (session_body (record {
                  client_eph_pub = to_base64 p.crypto.btoa eph_pub;
                  sealed_wmk = envelope;
                }))
                false
              >>= λ r. ok_text r >>= λ txt. hold_session_key sk

  -- handshake, from the draw of the ephemeral key on
  unfoldable pub attest_and_establish : Identity → Call HandshakeResult
  unfolding random_bytes get_attestation verify_attestation establish_session
  attest_and_establish identity = random_bytes >>= λ eph_priv.
      get_attestation (p.x25519_public eph_priv) >>= λ evidence.
      verify_attestation evidence (p.x25519_public eph_priv) >>= λ verdict.
      establish_session evidence eph_priv (p.x25519_public eph_priv) >>= λ session_key.
      give (record {
        identity = identity;
        evidence = evidence;
        verdict = verdict;
        session_key = session_key;
      })

  unfoldable pub handshake : List ℕ → Call HandshakeResult
  unfolding unlock_seed onboard attest_and_establish
  handshake seed =
      unlock_seed seed >>= λ identity. onboard >>= λ status. attest_and_establish identity
