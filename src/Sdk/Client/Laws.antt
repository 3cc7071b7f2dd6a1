-- ===== src/Sdk/Client/Laws.antt =====
-- web-client/caladon/src/client.ts: what a successful handshake of the strict policy has checked.
use caladon.Prelude.{subst}
use caladon.Sdk.Bytes.{from_base64, from_hex}
use caladon.Sdk.Client.{
  decoded, checked, or_else, truthy, verify_quote, HandshakeResult, attest_and_establish,
  establish_session, get_attestation, hold_session_key, ok_text, same_text, verify_attestation,
  handshake, unless_skip,
}
use caladon.Sdk.Text.{Text}
use caladon.Sdk.Protocol.{
  AttestationEvidence, AttestationPolicy, ClientSettings, PinnedSet, Verdict, observe, skip, strict,
  Identity,
}
use caladon.Sdk.Session.{
  ◌>>=◌, Call, Client, done, Attempt, ClientError, Platform, failed, follow, given, no_pinned,
  no_quote, no_session_pub, platform_threw, Reply, give,
}
use caladon.Prelude.{
  ◌≡◌, Bool-cases, List, Option, arith, inl, inr, none, refl, some, true, ℕ, ◌∙◌, ap, sym,
}

-- A sequence that is done went through its first part.
follow-done :
    {A B : Type 0} (x : Attempt A × Client) (f : A → Call B) (c' : Client) (b : B)
    → follow x.0 f x.1 ≡ (done b, c')
    → (a : A) × (d : Client) × (x ≡ (done a, d)) × (f a d ≡ (done b, c'))
follow-done (done a, d) f c' b h = (a, d, refl, h)
follow-done (failed e, d) f c' b h = absurd (ground arith)

pub bind-done :
    {A B : Type 0} (m : Call A) (f : A → Call B) (c c' : Client) (b : B)
    → (m >>= f) c ≡ (done b, c')
    → (a : A) × (d : Client) × (m c ≡ (done a, d)) × (f a d ≡ (done b, c'))
unfolding ◌>>=◌
bind-done m f c c' b h = follow-done (m c) f c' b h

given-done :
    {A : Type 0} (e : ClientError) (o : Option A) (c c' : Client) (a : A)
    → given e o c ≡ (done a, c')
    → o ≡ some a
given-done e none c c' a h = absurd (ground arith)
given-done e (some x) c c' a h = ground arith

-- What the strict policy has checked of the evidence for an ephemeral public key.
pub record IsAttested (p : Platform) (cfg : ClientSettings) (ev : AttestationEvidence)
    (eph_pub : List ℕ) (verdict : Verdict) : Type 0 where
  pub quote_hex : Text
  pub session_pub : Text
  pub collateral : Text
  pub now : ℕ
  pub pinned : PinnedSet
  pub session_bytes : List ℕ
  pub has_quote : truthy (or_else ev.intel_quote ev.quote) ≡ some quote_hex
  pub has_session_pub : truthy ev.session_pub ≡ some session_pub
  pub decodes : from_base64 p.crypto.atob session_pub ≡ some session_bytes
  pub has_pinned : cfg.pinned ≡ some pinned
  pub verified :
      p.verify_quote_sync
        (from_hex quote_hex)
        collateral
        ev.info_json
        now
        (p.challenge_hex eph_pub)
        session_bytes
        pinned
      ≡ some verdict
  pub passed : verdict.passed ≡ true

checked-strict :
    (v : Verdict) (policy : AttestationPolicy) (o : Option Verdict) (c c' : Client)
    → policy ≡ strict
    → checked v policy c ≡ (done o, c')
    → (o ≡ some v) × (v.passed ≡ true)
checked-strict v strict o c c' e h = elim (Bool-cases v.passed) [
  | inl passes ↦ (ground arith, passes)
  | inr fails ↦ absurd (ground arith)
]
checked-strict v observe o c c' e h = absurd (ground arith)
checked-strict v skip o c c' e h = absurd (ground arith)

decoded-done :
    (p : Platform) (cfg : ClientSettings) (b64 : Text) (bs : List ℕ) (c c' : Client)
    → decoded p cfg b64 c ≡ (done bs, c')
    → from_base64 p.crypto.atob b64 ≡ some bs
unfolding decoded
decoded-done p cfg b64 bs c c' h = given-done platform_threw _ c c' bs h

module _ (p : Platform) (cfg : ClientSettings) (strictly : cfg.attestation_policy ≡ strict) where
  verify_quote-IsAttested :
      (ev : AttestationEvidence) (eph_pub : List ℕ) (o : Option Verdict) (c c' : Client)
      → verify_quote p cfg ev eph_pub c ≡ (done o, c')
      → (v : Verdict) × (o ≡ some v) × IsAttested p cfg ev eph_pub v
  unfolding verify_quote
  verify_quote-IsAttested ev eph_pub o c c' h0 =
      let (quote_hex, c1, e1, h1) = bind-done _ _ c c' o h0 in
      let (collateral, c2, e2, h2) = bind-done _ _ c1 c' o h1 in
      let (pinned, c3, e3, h3) = bind-done _ _ c2 c' o h2 in
      let (session_pub, c4, e4, h4) = bind-done _ _ c3 c' o h3 in
      let (session_bytes, c4', e4', h4') = bind-done _ _ c4 c' o h4 in
      let (now, c5, e5, h5) = bind-done _ _ c4' c' o h4' in
      let (verdict, c6, e6, h6) = bind-done _ _ c5 c' o h5 in
      let (returned, passes) = checked-strict verdict cfg.attestation_policy o c6 c' strictly h6 in
      (
        verdict,
        returned,
        record {
          quote_hex = quote_hex;
          session_pub = session_pub;
          session_bytes = session_bytes;
          decodes = decoded-done p cfg session_pub session_bytes c4 c4' e4';
          collateral = collateral;
          now = now;
          pinned = pinned;
          has_quote = given-done no_quote _ c c1 quote_hex e1;
          has_session_pub = given-done no_session_pub _ c3 c4 session_pub e4;
          has_pinned = given-done no_pinned _ c2 c3 pinned e3;
          verified = given-done platform_threw _ c5 c6 verdict e6;
          passed = passes;
        },
      )

ok_text-done : (r : Reply) (t : Text) (c c' : Client) → ok_text r c ≡ (done t, c') → c ≡ c'
unfolding ok_text
ok_text-done r t c c' h = ground arith

unless_skip-strict :
    (policy : AttestationPolicy) (m : Call (Option Verdict))
    → policy ≡ strict
    → unless_skip policy m ≡ m
unfolding unless_skip
unless_skip-strict strict m e = refl
unless_skip-strict observe m e = absurd (ground arith)
unless_skip-strict skip m e = absurd (ground arith)

give-done : {A : Type 0} (a b : A) (c c' : Client) → give a c ≡ (done b, c') → (a ≡ b) × (c ≡ c')
give-done a b c c' h = (ground arith, ground arith)

some-injective : {A : Type 0} {a b : A} → some a ≡ some b → a ≡ b
some-injective h = ground arith

module _ (p : Platform) (cfg : ClientSettings) where
  establish_session-done :
      (ev : AttestationEvidence) (eph_priv eph_pub sk : List ℕ) (c c' : Client)
      → establish_session p cfg ev eph_priv eph_pub c ≡ (done sk, c')
      → (session_pub : Text) × (cvm_pub : List ℕ) × (truthy ev.session_pub ≡ some session_pub)
        × (from_base64 p.crypto.atob session_pub ≡ some cvm_pub)
        × (p.derive_session_key eph_priv cvm_pub eph_pub cvm_pub ≡ some sk)
        × (c'.session_key ≡ some sk)
  unfolding establish_session hold_session_key
  establish_session-done ev eph_priv eph_pub sk c c' h0 =
      let (ident, c1, e1, h1) = bind-done _ _ c c' sk h0 in
      let (session_pub, c2, e2, h2) = bind-done _ _ c1 c' sk h1 in
      let (cvm_pub, c2', e2', h2') = bind-done _ _ c2 c' sk h2 in
      let (sk0, c3, e3, h3) = bind-done _ _ c2' c' sk h2' in
      let (sealed, c4, e4, h4) = bind-done _ _ c3 c' sk h3 in
      let (envelope, c5, e5, h5) = bind-done _ _ c4 c' sk h4 in
      let (r, c6, e6, h6) = bind-done _ _ c5 c' sk h5 in
      let (txt, c7, e7, h7) = bind-done _ _ c6 c' sk h6 in
      (
        session_pub,
        cvm_pub,
        given-done no_session_pub _ c1 c2 session_pub e2,
        decoded-done p cfg session_pub cvm_pub c2 c2' e2',
        given-done platform_threw _ c2' c3 sk0 e3 ∙ ground arith,
        ground arith,
      )

  get_attestation-done :
      (eph_pub : List ℕ) (ev : AttestationEvidence) (c c' : Client)
      → get_attestation p cfg eph_pub c ≡ (done ev, c')
      → same_text ev.challenge (p.challenge_hex eph_pub) ≡ true
  unfolding get_attestation
  get_attestation-done eph_pub ev c c' h0 =
      let (r, c1, e1, h1) = bind-done _ _ c c' ev h0 in
      let (txt, c2, e2, h2) = bind-done _ _ c1 c' ev h1 in
      let (ev0, c3, e3, h3) = bind-done _ _ c2 c' ev h2 in ground arith

-- What a session key stands on: the evidence carries the challenge of this client's ephemeral key,
-- the verdict on it passed, and the key is derived with the session key that the verdict was about.
pub record IsBound (p : Platform) (cfg : ClientSettings) (h : HandshakeResult) (c : Client)
    : Type 0 where
  pub eph_priv : List ℕ
  pub verdict : Verdict
  pub challenged :
      same_text h.evidence.challenge (p.challenge_hex (p.x25519_public eph_priv)) ≡ true
  pub attested : IsAttested p cfg h.evidence (p.x25519_public eph_priv) verdict
  pub derived :
      p.derive_session_key eph_priv attested.session_bytes
        (p.x25519_public eph_priv)
        attested.session_bytes
      ≡ some h.session_key
  pub reported : h.verdict ≡ some verdict
  pub kept : c.session_key ≡ some h.session_key

module _ (p : Platform) (cfg : ClientSettings) (strictly : cfg.attestation_policy ≡ strict) where
  pub verify_attestation-IsAttested :
      (ev : AttestationEvidence) (eph_pub : List ℕ) (o : Option Verdict) (c c' : Client)
      → verify_attestation p cfg ev eph_pub c ≡ (done o, c')
      → (v : Verdict) × (o ≡ some v) × IsAttested p cfg ev eph_pub v
  unfolding verify_attestation
  verify_attestation-IsAttested ev eph_pub o c c' h =
      verify_quote-IsAttested p cfg strictly ev eph_pub o c c' (
        ap (λ (m : Call (Option Verdict)). m c)
          (sym (unless_skip-strict cfg.attestation_policy (verify_quote p cfg ev eph_pub) strictly))
        ∙ h)

  attest_and_establish-IsBound :
      (identity : Identity) (h : HandshakeResult) (c c' : Client)
      → attest_and_establish p cfg identity c ≡ (done h, c')
      → IsBound p cfg h c'
  unfolding attest_and_establish
  attest_and_establish-IsBound identity h c c' h0 =
      let (eph_priv, c1, e1, h1) = bind-done _ _ c c' h h0 in
      let (ev, c2, e2, h2) = bind-done _ _ c1 c' h h1 in
      let (o, c3, e3, h3) = bind-done _ _ c2 c' h h2 in
      let (sk, c4, e4, h4) = bind-done _ _ c3 c' h h3 in
      let (v, is_v, att) = verify_attestation-IsAttested ev (p.x25519_public eph_priv) o c2 c3 e3 in
      let (session_pub, cvm_pub, has_pub, decodes, derives, keeps) =
        establish_session-done p cfg ev eph_priv (p.x25519_public eph_priv) sk c3 c4 e4 in
      let result : HandshakeResult = record {
        identity = identity;
        evidence = ev;
        verdict = o;
        session_key = sk;
      } in
      let (same, here) = give-done result h c4 c' h4 in
      let same_pub : session_pub ≡ att.session_pub =
        some-injective (sym has_pub ∙ att.has_session_pub) in
      let same_bytes : cvm_pub ≡ att.session_bytes =
        some-injective (sym decodes ∙ (ap (from_base64 p.crypto.atob) same_pub ∙ att.decodes)) in
      subst (λ x. IsBound p cfg x c') same
        (record {
          eph_priv = eph_priv;
          verdict = v;
          challenged = get_attestation-done p cfg (p.x25519_public eph_priv) ev c1 c2 e2;
          attested = att;
          derived =
              subst (λ b. p.derive_session_key eph_priv b (p.x25519_public eph_priv) b ≡ some sk)
                same_bytes derives;
          reported = is_v;
          kept = subst (λ (d : Client). d.session_key ≡ some sk) here keeps;
        })

  -- A handshake of the strict policy that returns has a session key that stands on checked evidence:
  -- the evidence answers the challenge of the ephemeral key drawn for this handshake, the verdict of
  -- verify_quote_sync on its quote and on its session public key with the pinned set passed and is the
  -- one reported, and the session key kept is derived with that same session public key.
  pub handshake-IsBound :
      (seed : List ℕ) (h : HandshakeResult) (c c' : Client)
      → handshake p cfg seed c ≡ (done h, c')
      → IsBound p cfg h c'
  unfolding handshake
  handshake-IsBound seed h c c' h0 =
      let (identity, c1, e1, h1) = bind-done _ _ c c' h h0 in
      let (status, c2, e2, h2) = bind-done _ _ c1 c' h h1 in
      attest_and_establish-IsBound identity h c2 c' h2
