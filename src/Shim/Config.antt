-- ===== src/Shim/Config.antt =====
-- web-client/shim/src/config.ts: the settings, from the environment, and the routes to the gateway.
use caladon.Prelude.{
  ℕ, Bool, true, false, Option, none, some, List, [], ◌∷◌, map, if◌then◌else◌, eqb,
}
use caladon.Table.{select}
use caladon.Sdk.Text.{Text, codes, trim}
use caladon.Sdk.Client.{same_text}

-- process.env, and Number.parseInt(s, 10), which is NaN where there is no number.
pub record Process : Type 0 where
  pub env : Text → Option Text
  pub parse_int : Text → Option ℕ

unfoldable pub or_fallback : Option Text → Text → Text
or_fallback none fallback = fallback
or_fallback (some []) fallback = fallback
or_fallback (some (c ∷ v)) fallback = c ∷ v

abbrev prepend_char : ℕ → List Text → List Text
prepend_char c [] = (c ∷ []) ∷ []
prepend_char c (t ∷ ts) = (c ∷ t) ∷ ts

-- s.split(',')
unfoldable pub split_commas : Text → List Text
split_commas [] = [] ∷ []
split_commas (c ∷ s) =
    let rest = split_commas s in if eqb c b',' then [] ∷ rest else prepend_char c rest

abbrev is_filled : Text → Bool
is_filled [] = false
is_filled (c ∷ t) = true

unfoldable pub origins : Text → List Text
unfolding split_commas trim select
origins s = select is_filled (map (λ t. trim t) (split_commas s))

pub record Config : Type 0 where
  pub gateway_base : Text
  pub pcs_base : Text
  pub root_ca_crl_url : Text
  pub port : Option ℕ
  pub allowed_origins : List Text
  pub upstream_timeout_ms : Option ℕ
  pub session_cookie_name : Text
  pub session_max_age_s : Option ℕ
  pub cookie_secure : Bool
  pub static_dir : Text

-- env(key, fallback)
unfoldable pub setting : Process → Text → Text → Text
unfolding or_fallback
setting p key fallback = or_fallback (p.env key) fallback

unfoldable pub config_of : Process → Config
unfolding setting origins
config_of p = record {
  gateway_base = setting p (codes "CALADON_GATEWAY_BASE") (codes "https://gw.caladon.ai");
  pcs_base = setting p (codes "CALADON_PCS_BASE") (codes "https://api.trustedservices.intel.com");
  root_ca_crl_url =
      setting p (codes "CALADON_ROOT_CA_CRL_URL")
        (codes "https://certificates.trustedservices.intel.com/IntelSGXRootCA.der");
  port = p.parse_int (setting p (codes "PORT") (codes "8787"));
  allowed_origins = origins (
      setting p (codes "CALADON_ALLOWED_ORIGINS")
        (codes "http://localhost:3090,http://localhost:8787"));
  upstream_timeout_ms =
      p.parse_int (setting p (codes "CALADON_UPSTREAM_TIMEOUT_MS") (codes "30000"));
  session_cookie_name = setting p (codes "CALADON_SESSION_COOKIE") (codes "caladon_sid");
  session_max_age_s = p.parse_int (setting p (codes "CALADON_SESSION_MAX_AGE_S") (codes "86400"));
  cookie_secure =
      same_text (setting p (codes "CALADON_COOKIE_SECURE") (codes "false")) (codes "true");
  static_dir = setting p (codes "CALADON_STATIC_DIR") [];
}

-- The public names of the gateway's routes, with its paths.
abbrev pub route_map : List (Text × Text)
route_map =
    (codes "accounts", codes "/v1/accounts")
    ∷ (codes "chat", codes "/v1/chat")
    ∷ (codes "messages", codes "/v1/messages")
    ∷ (codes "attestation", codes "/v1/attestation")
    ∷ (codes "session", codes "/v1/session")
    ∷ (codes "models", codes "/v1/models")
    ∷ (codes "whoami", codes "/v1/whoami")
    ∷ []

unfoldable pub own_property : Text → List (Text × Text) → Option Text
own_property k [] = none
own_property k ((j, v) ∷ rest) =
    let other = own_property k rest in if same_text j k then some v else other
