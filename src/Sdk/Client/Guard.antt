-- ===== src/Sdk/Client/Guard.antt =====
-- web-client/caladon/src/client.ts: what has passed before the handshake sends a session request.
use caladon.Sdk.Client.Silence.{
  IsUnsent, IsSilent, IsUnsent-trans, stays, IsSilent-unlock_seed, IsSilent-onboard,
  IsSilent-get_attestation, IsSilent-verify_attestation, IsSilent-random_bytes,
}
use caladon.Sdk.Client.{establish_session, attest_and_establish, handshake}
use caladon.Sdk.Client.Laws.{IsAttested, verify_attestation-IsAttested}
use caladon.Sdk.Client.{handshake, attest_and_establish}
use caladon.Sdk.Protocol.{ClientSettings, AttestationEvidence, Identity, Verdict, strict}
use caladon.Sdk.Session.{◌>>=◌, Attempt, Call, Client, Platform, done, failed, follow, give}
use caladon.Sdk.Client.{random_bytes, get_attestation, onboard, unlock_seed, verify_attestation}
use caladon.Prelude.{ℕ, ◌≡◌, refl, List, inl, inr, ◌⊎◌}

-- From `c` to `d`, a handshake did nothing but silent calls and then establishSession, with evidence
-- that had passed the strict policy.
pub record IsPassed (p : Platform) (cfg : ClientSettings) (c d : Client) : Type 0 where
  pub ev : AttestationEvidence
  pub eph_priv : List ℕ
  pub verdict : Verdict
  pub before : Client
  pub attested : IsAttested p cfg ev (p.x25519_public eph_priv) verdict
  pub unsent : IsUnsent c before
  pub established : d ≡ (establish_session p cfg ev eph_priv (p.x25519_public eph_priv) before).1

abbrev pub IsGuarded : Platform → ClientSettings → Client → Client → Type 0
IsGuarded p cfg c d = IsUnsent c d ⊎ IsPassed p cfg c d

follow-give :
    {A B : Type 0} (x : Attempt A × Client) (f : A → B) → (follow x.0 (λ a. give (f a)) x.1).1 ≡ x.1
follow-give (done a, d) f = refl
follow-give (failed e, d) f = refl

module _ (p : Platform) (cfg : ClientSettings) where
  IsGuarded-after : (b c d : Client) → IsUnsent b c → IsGuarded p cfg c d → IsGuarded p cfg b d
  IsGuarded-after b c d h (inl unsent) = inl (IsUnsent-trans b c d h unsent)
  IsGuarded-after b c d h (inr k) = inr (record {
    ev = k.ev;
    eph_priv = k.eph_priv;
    verdict = k.verdict;
    before = k.before;
    attested = k.attested;
    unsent = IsUnsent-trans b c k.before h k.unsent;
    established = k.established;
  })

  follow-IsGuarded :
      {A B : Type 0} (c : Client) (x : Attempt A × Client) (f : A → Call B)
      → IsUnsent c x.1
      → ((a : A) (d : Client) → x ≡ (done a, d) → IsGuarded p cfg d (f a d).1)
      → IsGuarded p cfg c (follow x.0 f x.1).1
  follow-IsGuarded c (done a, d) f h k = IsGuarded-after c d (f a d).1 h (k a d refl)
  follow-IsGuarded c (failed e, d) f h k = inl h

  -- A sequence is guarded if its first part is silent and the rest is guarded.
  bind-IsGuarded :
      {A B : Type 0} (m : Call A) (f : A → Call B) (c : Client)
      → IsSilent m
      → ((a : A) (d : Client) → m c ≡ (done a, d) → IsGuarded p cfg d (f a d).1)
      → IsGuarded p cfg c ((m >>= f) c).1
  unfolding ◌>>=◌
  bind-IsGuarded m f c km k = follow-IsGuarded c (m c) f (km.at c) k

  establish-IsGuarded :
      {B : Type 0} (ev : AttestationEvidence) (priv : List ℕ) (v : Verdict) (f : List ℕ → B)
      (c : Client)
      → IsAttested p cfg ev (p.x25519_public priv) v
      → IsGuarded p cfg c
          ((establish_session p cfg ev priv (p.x25519_public priv) >>= λ sk. give (f sk)) c).1
  unfolding ◌>>=◌
  establish-IsGuarded ev priv v f c att = inr (record {
    ev = ev;
    eph_priv = priv;
    verdict = v;
    before = c;
    attested = att;
    unsent = stays c;
    established = follow-give (establish_session p cfg ev priv (p.x25519_public priv) c) f;
  })

module _ (p : Platform) (cfg : ClientSettings) (strictly : cfg.attestation_policy ≡ strict) where
  attest_and_establish-IsGuarded :
      (i : Identity) (c : Client) → IsGuarded p cfg c (attest_and_establish p cfg i c).1
  unfolding attest_and_establish
  attest_and_establish-IsGuarded i c =
      bind-IsGuarded p cfg (random_bytes p cfg) _ c (IsSilent-random_bytes p cfg) (λ priv d1 e1.
        bind-IsGuarded p cfg (get_attestation p cfg (p.x25519_public priv)) _ d1
          (IsSilent-get_attestation p cfg (p.x25519_public priv))
          (λ ev d2 e2.
            bind-IsGuarded p cfg (verify_attestation p cfg ev (p.x25519_public priv)) _ d2
              (IsSilent-verify_attestation p cfg ev (p.x25519_public priv))
              (λ o d3 e3.
                let (v, same, att) =
                  verify_attestation-IsAttested p cfg strictly ev (p.x25519_public priv) o d2 d3
                    e3 in
                establish-IsGuarded p cfg ev priv v _ d3 att)))

  -- Under the strict policy a handshake, however it ends, either sends no session request, which is
  -- the one that carries the sealed key, and leaves the session key as it was; or it did so up to a
  -- call of establishSession, its last act, on evidence whose quote and session public key had been
  -- verified with the pinned set and the ephemeral key, with a positive verdict.
  pub handshake-IsGuarded :
      (seed : List ℕ) (c : Client) → IsGuarded p cfg c (handshake p cfg seed c).1
  unfolding handshake
  handshake-IsGuarded seed c =
      bind-IsGuarded p cfg (unlock_seed p cfg seed) _ c (IsSilent-unlock_seed p cfg seed)
        (λ i d1 e1.
          bind-IsGuarded p cfg (onboard p cfg) _ d1 (IsSilent-onboard p cfg)
            (λ status d2 e2. attest_and_establish-IsGuarded i d2))
