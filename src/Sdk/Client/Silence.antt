-- ===== src/Sdk/Client/Silence.antt =====
-- web-client/caladon/src/client.ts: which calls send no session request.
use caladon.Sdk.Client.{fetch}
use caladon.Sdk.Protocol.{
  ClientSettings, AttestationEvidence, AttestationPolicy, Identity, Verdict, observe, skip, strict,
}
use caladon.Sdk.Session.{
  ◌>>=◌, Attempt, Call, Client, ClientError, Platform, Reply, Request, done, fail, failed, follow,
  give, given, platform_threw, Body, Method, no_identity,
}
use caladon.Sdk.Client.{
  random_bytes, now_secs, collateral_of, ok_text, same_text, auth_header, checked, get_attestation,
  hold_identity, onboard, require_identity, signed_fetch, unless_skip, unlock_seed,
  verify_attestation, verify_quote,
}
use caladon.Sdk.Text.{codes, Text}
use caladon.Prelude.{
  ℕ, suc, ◌≡◌, refl, ◌∙◌, Bool, true, false, Option, none, some, List, [], ◌∷◌, ◌++◌, arith,
  if◌then◌else◌, ◌+◌,
}

-- POST /v1/session
abbrev pub is_session : Request → Bool
is_session r = same_text r.relay (codes "session")

unfoldable pub sessions : List Request → ℕ
sessions [] = 0
sessions (r ∷ rs) = let rest = sessions rs in if is_session r then suc rest else rest

-- No session request was sent on the way from `c` to `d`, and the session key is the same.
pub record IsUnsent (c d : Client) : Type 0 where
  pub none_sent : sessions d.sent ≡ sessions c.sent
  pub same_key : d.session_key ≡ c.session_key

pub IsUnsent-trans : (b c d : Client) → IsUnsent b c → IsUnsent c d → IsUnsent b d
IsUnsent-trans b c d h k = record {
  none_sent = k.none_sent ∙ h.none_sent;
  same_key = k.same_key ∙ h.same_key;
}

-- The call sends no session request and keeps the session key, whether it returns or fails.
pub record IsSilent {A : Type 0} (m : Call A) : Type 0 where
  pub at : (c : Client) → IsUnsent c (m c).1

sessions-snoc :
    (rs : List Request) (r : Request) → is_session r ≡ false → sessions (rs ++ r ∷ []) ≡ sessions rs
unfolding sessions
sessions-snoc [] r h = ground arith
sessions-snoc (x ∷ rs) r h = ground (arith, sessions-snoc rs r h)

pub stays : (c : Client) → IsUnsent c c
stays c = record { none_sent = refl; same_key = refl }

module _ {A : Type 0} where
  IsSilent-give : (a : A) → IsSilent (give a)
  IsSilent-give a = record { at = λ c. stays c }

  IsSilent-fail : (e : ClientError) → IsSilent (fail {A = A} e)
  IsSilent-fail e = record { at = λ c. stays c }

  IsSilent-given : (e : ClientError) (o : Option A) → IsSilent (given e o)
  IsSilent-given e none = record { at = λ c. stays c }
  IsSilent-given e (some a) = record { at = λ c. stays c }

  IsSilent-if : (b : Bool) (m n : Call A) → IsSilent m → IsSilent n → IsSilent (if b then m else n)
  IsSilent-if true m n km kn = km
  IsSilent-if false m n km kn = kn

module _ {A B : Type 0} where
  follow-IsUnsent :
      (x : Attempt A × Client) (f : A → Call B)
      → ((a : A) → IsSilent (f a))
      → IsUnsent x.1 (follow x.0 f x.1).1
  follow-IsUnsent (done a, d) f kf = (kf a).at d
  follow-IsUnsent (failed e, d) f kf = stays d

  IsSilent-bind :
      (m : Call A) (f : A → Call B) → IsSilent m → ((a : A) → IsSilent (f a)) → IsSilent (m >>= f)
  unfolding ◌>>=◌
  IsSilent-bind m f km kf = record {
    at = λ c. IsUnsent-trans c (m c).1 _ (km.at c) (follow-IsUnsent (m c) f kf);
  }

given-IsUnsent :
    {A : Type 0} (e : ClientError) (o : Option A) (c d : Client)
    → IsUnsent c d
    → IsUnsent c (given e o d).1
given-IsUnsent e none c d h = h
given-IsUnsent e (some a) c d h = h

ruleset silent_rules = (IsSilent-give, IsSilent-fail, IsSilent-given, IsSilent-if, IsSilent-bind)

IsSilent-ok_text : (r : Reply) → IsSilent (ok_text r)
unfolding ok_text
IsSilent-ok_text r = search silent_rules

IsSilent-checked : (v : Verdict) (policy : AttestationPolicy) → IsSilent (checked v policy)
IsSilent-checked v strict = search silent_rules
IsSilent-checked v observe = search silent_rules
IsSilent-checked v skip = search silent_rules

IsSilent-unless_skip :
    (policy : AttestationPolicy) (m : Call (Option Verdict))
    → IsSilent m
    → IsSilent (unless_skip policy m)
unfolding unless_skip
IsSilent-unless_skip strict m h = h
IsSilent-unless_skip observe m h = h
IsSilent-unless_skip skip m h = IsSilent-give none

module _ (p : Platform) (cfg : ClientSettings) where
  IsSilent-now_secs : IsSilent (now_secs p cfg)
  unfolding now_secs
  IsSilent-now_secs = record { at = λ c. record { none_sent = refl; same_key = refl } }

  pub IsSilent-random_bytes : IsSilent (random_bytes p cfg)
  unfolding random_bytes
  IsSilent-random_bytes = record { at = λ c. record { none_sent = refl; same_key = refl } }

  IsSilent-collateral_of : (quote : List ℕ) → IsSilent (collateral_of p cfg quote)
  unfolding collateral_of
  IsSilent-collateral_of quote = record {
    at = λ c.
        given-IsUnsent platform_threw (p.collateral c.asked quote) c
          (record c { asked = c.asked + 1 }) (record { none_sent = refl; same_key = refl });
  }

  IsSilent-fetch : (r : Request) → is_session r ≡ false → IsSilent (fetch p cfg r)
  unfolding fetch
  IsSilent-fetch r h = record {
    at = λ c.
        given-IsUnsent platform_threw (p.fetch c.asked r) c
          (record c { asked = c.asked + 1; sent = c.sent ++ r ∷ [] })
          (record { none_sent = sessions-snoc c.sent r h; same_key = refl });
  }

  IsSilent-require_identity : IsSilent (require_identity p cfg)
  unfolding require_identity
  IsSilent-require_identity = record { at = λ c. (IsSilent-given no_identity c.identity).at c }

  IsSilent-hold_identity : (i : Identity) → IsSilent (hold_identity p cfg i)
  unfolding hold_identity
  IsSilent-hold_identity i = record { at = λ c. record { none_sent = refl; same_key = refl } }

  pub IsSilent-unlock_seed : (seed : List ℕ) → IsSilent (unlock_seed p cfg seed)
  unfolding unlock_seed
  IsSilent-unlock_seed seed = search (silent_rules, IsSilent-hold_identity)

  IsSilent-auth_header : (m : Method) (path : Text) → IsSilent (auth_header p cfg m path)
  unfolding auth_header
  IsSilent-auth_header m path =
      search (silent_rules, IsSilent-require_identity, IsSilent-now_secs) depth 8

  IsSilent-signed_fetch :
      (m : Method) (relay query : Text) (body : Body) (is_stream : Bool)
      → same_text relay (codes "session") ≡ false
      → IsSilent (signed_fetch p cfg m relay query body is_stream)
  unfolding signed_fetch
  IsSilent-signed_fetch m relay query body is_stream h =
      IsSilent-bind (auth_header p cfg m (codes "/v1/" ++ relay ++ query)) _
        (IsSilent-auth_header m _) (λ a. IsSilent-fetch _ h)

  pub IsSilent-onboard : IsSilent (onboard p cfg)
  unfolding onboard same_text
  IsSilent-onboard =
      search (silent_rules, IsSilent-require_identity, IsSilent-random_bytes, IsSilent-signed_fetch)
        depth 12

  pub IsSilent-get_attestation : (eph_pub : List ℕ) → IsSilent (get_attestation p cfg eph_pub)
  unfolding get_attestation same_text
  IsSilent-get_attestation eph_pub =
      search (silent_rules, IsSilent-signed_fetch, IsSilent-ok_text) depth 12

  IsSilent-verify_quote :
      (ev : AttestationEvidence) (eph_pub : List ℕ) → IsSilent (verify_quote p cfg ev eph_pub)
  unfolding verify_quote
  IsSilent-verify_quote ev eph_pub =
      search (silent_rules, IsSilent-collateral_of, IsSilent-now_secs, IsSilent-checked) depth 16

  pub IsSilent-verify_attestation :
      (ev : AttestationEvidence) (eph_pub : List ℕ) → IsSilent (verify_attestation p cfg ev eph_pub)
  unfolding verify_attestation
  IsSilent-verify_attestation ev eph_pub =
      IsSilent-unless_skip cfg.attestation_policy _ (IsSilent-verify_quote ev eph_pub)
