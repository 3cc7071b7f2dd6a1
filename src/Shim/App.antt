-- ===== src/Shim/App.antt =====
-- web-client/shim/src/server.ts: which handler answers a request.
pub mod Laws
pub mod Gateway
pub mod Egress
use caladon.Prelude.{
  String, ◌==◌, Bool, true, false, ◌||◌, Option, none, some, List, [], ◌∷◌, if◌then◌else◌, eqb,
  length, drop,
}
use caladon.Sdk.Text.{Text, codes, starts_with}
use caladon.Sdk.Client.{same_text}
use caladon.Store.Action.{bool, arr, nil}
use caladon.Shim.Config.{Config}
use caladon.Shim.Middleware.{Hono, cors_options, cookie_for}
use caladon.Shim.Relay.{Header, Incoming, Reply, json_reply, empty_reply, Network, Handler}
use caladon.Shim.Boot.{
  startup_config, role, endpoints, no_conversations, no_projects, no_active_jobs, empty_marketplace,
  unauthenticated,
}
use caladon.Shim.Server.{
  Cookie, Script, health, handle_caladon, root_ca_crl, pcs_collateral, models,
}
use caladon.Shim.Front.{Served, front}

abbrev has_slash : Text → Bool
has_slash [] = false
has_slash (c ∷ t) = eqb c b'/' || has_slash t

-- What goes back to the browser: the reply, and what is set beside it.
pub record Response : Type 0 where
  pub reply : Reply
  pub headers : List Header
  pub cors_headers : List Header
  pub cookie : Option Cookie

-- The one segment that `:name` stands for.
abbrev pub segment : Text → Option Text
segment [] = none
segment (c ∷ t) = if has_slash (c ∷ t) then none else some (c ∷ t)

-- A path below a prefix that ends in a slash.
unfoldable pub below : Text → Text → Option Text
unfolding starts_with
below prefix path = if starts_with prefix path then segment (drop (length prefix) path) else none

-- `/pcs-collateral/*`, which matches the path without its slash too
abbrev pub is_below_pcs : Text → Bool
is_below_pcs path =
    starts_with (codes "/pcs-collateral/") path || same_text path (codes "/pcs-collateral")

-- The static answers, by their paths.
unfoldable pub stubs : List (Text × Reply)
unfolding startup_config endpoints
stubs =
    (codes "/api/config", json_reply 200 startup_config)
    ∷ (codes "/api/banner", empty_reply)
    ∷ (codes "/api/user", json_reply 401 unauthenticated)
    ∷ (codes "/api/endpoints", json_reply 200 endpoints)
    ∷ (codes "/api/convos", json_reply 200 no_conversations)
    ∷ (codes "/api/projects", json_reply 200 no_projects)
    ∷ (codes "/api/user/settings/favorites", json_reply 200 (arr nil))
    ∷ (codes "/api/agents/chat/active", json_reply 200 no_active_jobs)
    ∷ (codes "/api/agents/tools", json_reply 200 (arr nil))
    ∷ (codes "/api/agents/categories", json_reply 200 (arr nil))
    ∷ (codes "/api/agents/marketplace", json_reply 200 empty_marketplace)
    ∷ (codes "/api/files", json_reply 200 (arr nil))
    ∷ (codes "/api/search/enable", json_reply 200 (bool true))
    ∷ []

unfoldable pub stub_at : Text → List (Text × Reply) → Option Reply
stub_at path [] = none
stub_at path ((p, r) ∷ rest) =
    let other = stub_at path rest in if same_text p path then some r else other

abbrev pub answer_at : Option Reply → Option (Handler Reply)
answer_at none = none
answer_at (some r) = some (λ s. (r, s))

module _ (net : Network) (js : Script) (cfg : Config) (decode : Text → Text)
    (text_of : Text → String) where
  -- The handlers of GET, but for those of the gateway's routes and of the front door.
  unfoldable pub get_route : Incoming → Option (Handler Reply)
  unfolding health root_ca_crl pcs_collateral models stub_at stubs role below
  get_route req =
      if same_text req.path (codes "/health")
      then some (health net js cfg (text_of cfg.gateway_base))
      else if same_text req.path (codes "/pcs-collateral/root-ca-crl")
      then some (root_ca_crl net js cfg)
      else if is_below_pcs req.path
      then some (pcs_collateral net js cfg req)
      else if same_text req.path (codes "/api/models")
      then some (models net js cfg)
      else elim (below (codes "/api/roles/") req.path) [
        | some name ↦ some (λ s. (json_reply 200 (role (text_of (decode name))), s))
        | none ↦ answer_at (stub_at req.path stubs)
      ]

  unfoldable pub other_route : Incoming → Option (Handler Reply)
  unfolding get_route
  other_route req = if req.method == "GET" then get_route req else none

  unfoldable pub route : Incoming → Option (Handler Reply)
  unfolding handle_caladon other_route below
  route req = elim (below (codes "/api/caladon/") req.path) [
    | some name ↦
        if req.method == "GET" || req.method == "POST"
        then some (handle_caladon net js cfg (decode name) req)
        else none
    | none ↦ other_route req
  ]

  -- the handlers, and the front door behind them
  unfoldable pub dispatch : (Text → Bool) → Incoming → Handler Served
  unfolding route front
  dispatch has_file req s = elim (route req) [
    | none ↦ (front has_file cfg req, s)
    | some h ↦ let (r, s') = h s in (record { reply = r; headers = [] }, s')
  ]

  -- The middleware, and what it goes on to where CORS has not answered a preflight.
  abbrev pub passed_on :
      Hono → (Text → Bool) → Incoming → List Header → Option Reply → Handler Response
  passed_on hono has_file req cors (some r) s =
      (record { reply = r; headers = []; cors_headers = cors; cookie = none }, s)
  passed_on hono has_file req cors none s =
      let (served, s') = dispatch has_file req s in
      (
        record {
          reply = served.reply;
          headers = served.headers;
          cors_headers = cors;
          cookie = cookie_for hono cfg req s;
        },
        s',
      )

  unfoldable pub serve : Hono → (Text → Bool) → Incoming → Handler Response
  unfolding dispatch cors_options cookie_for
  serve hono has_file req =
      let cors = hono.cors (cors_options cfg) req in
      passed_on hono has_file req cors.headers cors.preflight
