-- ===== src/Shim/Middleware.antt =====
-- web-client/shim/src/server.ts: the middleware that runs before the handlers, CORS for every path and
-- the session cookie for those of the gateway's routes. What Hono does with its options, its reading
-- of the cookies and the random bytes are parameters.
use caladon.Prelude.{
  ℕ, String, Bool, true, ◌||◌, Option, none, List, [], ◌∷◌, length, if◌then◌else◌,
}
use caladon.Sdk.Text.{Text, codes, starts_with}
use caladon.Sdk.Client.{same_text}
use caladon.Shim.Config.{Config}
use caladon.Shim.Relay.{Header, Incoming, Reply, Shim}
use caladon.Shim.Server.{Cookie, allowed_origin, session_cookie}

pub record CorsOptions : Type 0 where
  pub origin : Text → Option Text
  pub credentials : Bool
  pub allow_methods : List String
  pub allow_headers : List String
  pub max_age : ℕ

-- What the CORS middleware does with a request: it answers a preflight itself, and it sets headers.
pub record CorsResult : Type 0 where
  pub preflight : Option Reply
  pub headers : List Header

pub record Hono : Type 0 where
  pub cors : CorsOptions → Incoming → CorsResult
  pub get_cookie : Incoming → Text → Option Text
  -- randomBytes(32).toString('base64url') when n requests have been sent
  pub random_token : ℕ → Text

unfoldable pub cors_options : Config → CorsOptions
unfolding allowed_origin
cors_options cfg = record {
  origin = allowed_origin cfg.allowed_origins;
  credentials = true;
  allow_methods = "GET" ∷ "POST" ∷ "OPTIONS" ∷ [];
  allow_headers = "Content-Type" ∷ "Authorization" ∷ "Accept" ∷ "Last-Event-ID" ∷ [];
  max_age = 600;
}

-- `/api/caladon/*`, which matches the path without its slash too
abbrev pub is_below_caladon : Text → Bool
is_below_caladon path =
    starts_with (codes "/api/caladon/") path || same_text path (codes "/api/caladon")

-- The cookie that is set on the way to the handler.
unfoldable pub cookie_for : Hono → Config → Incoming → Shim → Option Cookie
unfolding session_cookie
cookie_for hono cfg req s =
    if is_below_caladon req.path
    then session_cookie cfg (hono.get_cookie req cfg.session_cookie_name)
        (hono.random_token (length s.sent))
    else none
