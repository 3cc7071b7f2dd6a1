-- ===== src/Shim/Server.antt =====
-- web-client/shim/src/server.ts: the handlers of the shim, and the order in which they are tried.
-- Hono's matching of a path is written out where it is used; a handler answers or goes on to the next.
use caladon.Prelude.{
  ℕ, ◌+◌, ◌-◌, ◌/◌, ◌%◌, String, ◌==◌, Bool, true, false, ◌&&◌, Option, none, some, List, [], ◌∷◌,
  ◌++◌, if◌then◌else◌, ltb, leb, eqb, length, drop,
}
use caladon.Sdk.Text.{Text, codes}
use caladon.Sdk.Client.{same_text}
use caladon.Store.Action.{Json, Items, bool, num, str, arr, null, nil, cons}
use caladon.Shim.Config.{Config, route_map, own_property}
use caladon.Shim.Relay.{
  Incoming, Upstream, Fetched, answered, Reply, json_reply, text_reply, Network, Shim, ModelsCache,
  Handler, send, relay,
}
use caladon.Shim.Boot.{object, caladon_endpoint, caladon_models}

-- What the shim uses of JavaScript beside the network.
pub record Script : Type 0 where
  -- Date.now() when n requests have been sent
  pub now : ℕ → ℕ
  -- what `ROUTE_MAP[name]` finds on Object.prototype, as a template literal prints it
  pub inherited : Text → Option Text
  -- JSON.parse of a body, and the ids of its `models`, one for each element, where these are texts;
  -- none where the body is no JSON or `models` is no array
  pub parse_json : List ℕ → Option Json
  pub parse_models : List ℕ → Option (List (Option String))

-- c.json of a failure
abbrev pub failure : ℕ → List (String × Json) → Reply
failure status ps = json_reply status (object ps)

-- config.allowedOrigins.includes(origin) ? origin : null
unfoldable pub allowed_origin : List Text → Text → Option Text
allowed_origin [] origin = none
allowed_origin (o ∷ os) origin =
    let rest = allowed_origin os origin in if same_text o origin then some origin else rest

pub record Cookie : Type 0 where
  pub name : Text
  pub value : Text
  pub http_only : Bool
  pub same_site : Text
  pub path : Text
  pub secure : Bool
  pub max_age : Option ℕ

-- The middleware of /api/caladon/*: a cookie with a fresh random value, if there is none.
unfoldable pub session_cookie : Config → Option Text → Text → Option Cookie
session_cookie cfg (some (c ∷ v)) random = none
session_cookie cfg _ random = some (record {
  name = cfg.session_cookie_name;
  value = random;
  http_only = true;
  same_site = codes "Lax";
  path = codes "/";
  secure = cfg.cookie_secure;
  max_age = cfg.session_max_age_s;
})

-- r.ok
abbrev pub is_ok : ℕ → Bool
is_ok status = leb 200 status && ltb status 300

-- fetch(url, { signal })
abbrev pub plain_get : Text → Option ℕ → Upstream
plain_get url limit = record {
  url = url;
  method = "GET";
  headers = [];
  body = none;
  has_limit = true;
  limit = limit;
}

abbrev pub hex_digit : ℕ → ℕ
hex_digit n = if ltb n 10 then 48 + n else 87 + n

-- b.toString(16).padStart(2, '0'), for each byte
unfoldable pub hex_of : List ℕ → Text
hex_of [] = []
hex_of (b ∷ bs) = hex_digit (b / 16) ∷ hex_digit (b % 16) ∷ hex_of bs

-- The ids that are texts and not empty.
unfoldable pub listed_ids : List (Option String) → List String
listed_ids [] = []
listed_ids (none ∷ rest) = listed_ids rest
listed_ids (some id ∷ rest) = let ids = listed_ids rest in if id == "" then ids else id ∷ ids

abbrev pub models_ttl_ms : ℕ
models_ttl_ms = 60000

-- `!_modelsCache || now - _modelsCache.at > MODELS_TTL_MS`
abbrev pub is_stale : Option ModelsCache → ℕ → Bool
is_stale none now = true
is_stale (some c) now = ltb models_ttl_ms (now - c.at)

-- s.replace(/\/$/, '')
unfoldable pub without_slash : Text → Text
without_slash [] = []
without_slash (c ∷ []) = if eqb c b'/' then [] else c ∷ []
without_slash (c ∷ d ∷ t) = c ∷ without_slash (d ∷ t)

-- _modelsCache?.ids?.length ? _modelsCache.ids : CALADON_MODELS
unfoldable pub shown_models : Option ModelsCache → List String
shown_models none = caladon_models
shown_models (some c) = elim c.ids [ [] ↦ caladon_models | (id ∷ ids) ↦ id ∷ ids ]

unfoldable pub items_of : List String → Items
items_of [] = nil
items_of (id ∷ ids) = cons (str id) (items_of ids)

-- The request for the gateway's models.
abbrev pub models_request : Config → Upstream
models_request cfg = plain_get (without_slash cfg.gateway_base ++ codes "/v1/models") (some 10000)

module _ (net : Network) (js : Script) (cfg : Config) where
  -- GET /health
  unfoldable pub health_of : Fetched → Json
  health_of (answered a) = object (
      ("reachable", bool (is_ok a.status))
      ∷ ("status", num a.status)
      ∷ ("body", elim (js.parse_json a.body) [ none ↦ null | some j ↦ j ])
      ∷ [])
  health_of _ = object (("reachable", bool false) ∷ [])

  unfoldable pub health : String → Handler Reply
  unfolding send health_of
  health base s =
      let (res, s') =
        send net cfg (plain_get (cfg.gateway_base ++ codes "/health") cfg.upstream_timeout_ms) s in
      (
        json_reply 200 (
            object
              (("shim", str "ok") ∷ ("gatewayBase", str base) ∷ ("gateway", health_of res) ∷ [])),
        s',
      )

  -- ROUTE_MAP[name]: an own property, or one that every object inherits. The empty text is falsy.
  unfoldable pub upstream_path : Text → Option Text
  unfolding own_property
  upstream_path name = elim (own_property name route_map) [
    | some path ↦ some path
    | none ↦ js.inherited name
  ]

  -- handleCaladon, with the name of the route
  unfoldable pub handle_caladon : Text → Incoming → Handler Reply
  unfolding upstream_path relay
  handle_caladon name req s = elim (upstream_path name) [
    | none ↦
        (failure 404 (("error", str "not_found") ∷ ("reason", str "unknown caladon route") ∷ []), s)
    | some path ↦
        relay net cfg req (cfg.gateway_base ++ path ++ req.search) (same_text name (codes "chat")) s
  ]

  -- GET /pcs-collateral/root-ca-crl
  unfoldable pub crl_reply : Fetched → Reply
  unfolding hex_of
  crl_reply (answered a) =
      if is_ok a.status
      then text_reply (hex_of a.body)
      else failure 502 (("error", str "root_ca_crl_upstream") ∷ ("status", num a.status) ∷ [])
  crl_reply _ = failure 502 (("error", str "root_ca_crl_fetch_failed") ∷ [])

  unfoldable pub root_ca_crl : Handler Reply
  unfolding send crl_reply
  root_ca_crl s =
      let (res, s') = send net cfg (plain_get cfg.root_ca_crl_url cfg.upstream_timeout_ms) s in
      (crl_reply res, s')

  -- GET /pcs-collateral/*: the prefix is dropped.
  unfoldable pub pcs_collateral : Incoming → Handler Reply
  unfolding relay
  pcs_collateral req =
      relay net cfg req
        (cfg.pcs_base ++ drop (length (codes "/pcs-collateral")) req.path ++ req.search) false

  -- What an answer of the gateway makes of the cache; a failure leaves it.
  unfoldable pub refreshed : ℕ → Option ModelsCache → Fetched → Option ModelsCache
  unfolding listed_ids
  refreshed now cache (answered a) = elim (js.parse_models a.body) [
    | none ↦ cache
    | some ids ↦ if is_ok a.status then some (record { at = now; ids = listed_ids ids }) else cache
  ]
  refreshed now cache _ = cache

  unfoldable pub refresh_models : ℕ → Shim → Shim
  unfolding send refreshed without_slash
  refresh_models now s =
      let (res, s') = send net cfg (models_request cfg) s in
      record s' { cache = refreshed now s'.cache res }

  -- GET /api/models
  unfoldable pub models : Handler Reply
  unfolding refresh_models shown_models items_of
  models s =
      let s' =
        if is_stale s.cache (js.now (length s.sent))
        then refresh_models (js.now (length s.sent)) s
        else s in
      (
        json_reply 200 (object ((caladon_endpoint, arr (items_of (shown_models s'.cache))) ∷ [])),
        s',
      )
