-- ===== src/Shim/App/Gateway.antt =====
-- web-client/shim/src/server.ts: the requests for the routes of the gateway.
use caladon.Prelude.{
  ap, none, ◌≡◌, refl, ap₂, subst, arith, String, ◌==◌, Bool, true, ◌||◌, Bool-cases, inl, inr,
  some, List, [], ◌∷◌, ◌++◌, All,
}
use caladon.Sdk.Text.{Text, codes}
use caladon.Sdk.Client.{same_text}
use caladon.Shim.Config.{Config, route_map, own_property}
use caladon.Table.{IsKeyed}
use caladon.Shim.Relay.{header_name, Incoming, Network, Shim, relay}
use caladon.Shim.Relay.Forwarding.{AnswersKeyed, IsForwarded, relay-IsForwarded}
use caladon.Shim.Server.{Script, handle_caladon, upstream_path}
use caladon.Shim.Middleware.{Hono, cors_options}
use caladon.Shim.App.{below, route, dispatch, serve, passed_on}

-- the test of equal texts decides their equality
same_text_lem : (s t : Text) → same_text s t ≡ true → s ≡ t
unfolding same_text
same_text_lem [] [] h = refl
same_text_lem [] (d ∷ t) h = absurd (ground arith)
same_text_lem (c ∷ s) [] h = absurd (ground arith)
same_text_lem (c ∷ s) (d ∷ t) h = ap₂ ◌∷◌ (ground arith) (same_text_lem s t (ground arith))

some-injective : (v w : Text) → some v ≡ some w → v ≡ w
some-injective v w h = cc

-- A route of the table leads to the gateway's path of the same name, and its name is one segment.
abbrev IsNamed : Text → Text → Type 0
IsNamed name path =
    (path ≡ codes "/v1/" ++ name)
    × (below (codes "/api/caladon/") (codes "/api/caladon/" ++ name) ≡ some name)

own_property-IsNamed :
    (name path : Text) (m : List (Text × Text))
    → All (λ e. IsNamed e.0 e.1) m
    → own_property name m ≡ some path
    → IsNamed name path
unfolding own_property
own_property-IsNamed name path [] h eq = absurd (ground arith)
own_property-IsNamed name path ((j, v) ∷ m) h eq = elim (Bool-cases (same_text j name)) [
  | inl this ↦
      subst (λ n. IsNamed n path) (same_text_lem j name this)
        (subst (IsNamed j) (some-injective v path (rw this at eq)) h.0)
  | inr other ↦ own_property-IsNamed name path m h.1 (rw other at eq)
]

route_map-IsNamed : All (λ e. IsNamed e.0 e.1) route_map
unfolding below
route_map-IsNamed = (
  (refl, refl),
  (
    (refl, refl),
    ((refl, refl), ((refl, refl), ((refl, refl), ((refl, refl), ((refl, refl), tt))))),
  ),
)

module _ (net : Network) (js : Script) (cfg : Config) (decode : Text → Text)
    (text_of : Text → String) where
  handle_caladon_known :
      (name path : Text) (req : Incoming) (s : Shim)
      → own_property name route_map ≡ some path
      → handle_caladon net js cfg name req s
        ≡ relay net cfg req
            (cfg.gateway_base ++ path ++ req.search)
            (same_text name (codes "chat"))
            s
  unfolding handle_caladon upstream_path same_text
  handle_caladon_known name path req s known = rw known refl

  dispatch_known :
      (has_file : Text → Bool) (name : Text) (req : Incoming) (s : Shim)
      → below (codes "/api/caladon/") req.path ≡ some name
      → (req.method == "GET" || req.method == "POST") ≡ true
      → dispatch net js cfg decode text_of has_file req s ≡ (
        record { reply = (handle_caladon net js cfg (decode name) req s).0; headers = [] },
        (handle_caladon net js cfg (decode name) req s).1,
      )
  unfolding dispatch route
  dispatch_known has_file name req s here method = rw (here, method) refl

  serve_on :
      (hono : Hono) (has_file : Text → Bool) (req : Incoming) (s : Shim)
      → (hono.cors (cors_options cfg) req).preflight ≡ none
      → ((serve net js cfg decode text_of hono has_file req s).0.reply
          ≡ (dispatch net js cfg decode text_of has_file req s).0.reply)
        × ((serve net js cfg decode text_of hono has_file req s).1
            ≡ (dispatch net js cfg decode text_of has_file req s).1)
  unfolding serve
  serve_on hono has_file req s on =
      let cors = (hono.cors (cors_options cfg) req).headers in
      (
        ap (λ o. (passed_on net js cfg decode text_of hono has_file req cors o s).0.reply) on,
        ap (λ o. (passed_on net js cfg decode text_of hono has_file req cors o s).1) on,
      )

  -- A request for a name of the route table is answered by the gateway's path of that name: one
  -- request is sent, to `/v1/<name>` of the gateway, with the query and the method as they came, the
  -- body unless the method is GET, and every header but those of the connection and the cookie; only
  -- `chat` has no time limit; the answer is passed on with its status, its body and every header but
  -- those of the connection, the cookies, the encoding and CORS, and a failure is a bad gateway.
  -- Needed: the CORS middleware does not answer the request as a preflight, the name decodes to
  -- itself, the method is GET or POST, and the names of the headers of the request and of an answer
  -- are distinct.
  pub serve-IsForwarded :
      (hono : Hono) (has_file : Text → Bool) (name path : Text) (req : Incoming) (s : Shim)
      → (hono.cors (cors_options cfg) req).preflight ≡ none
      → own_property name route_map ≡ some path
      → req.path ≡ codes "/api/caladon/" ++ name
      → decode name ≡ name
      → (req.method == "GET" || req.method == "POST") ≡ true
      → IsKeyed header_name req.headers
      → AnswersKeyed net
      → IsForwarded net req
          (cfg.gateway_base ++ (codes "/v1/" ++ name) ++ req.search)
          (same_text name (codes "chat"))
          s
          (serve net js cfg decode text_of hono has_file req s).0.reply
          (serve net js cfg decode text_of hono has_file req s).1
  serve-IsForwarded hono has_file name path req s on known here same method keyed answers =
      let named = own_property-IsNamed name path route_map route_map-IsNamed known in
      let (reply, sent) = serve_on hono has_file req s on in
      rw
        (
          reply,
          sent,
          dispatch_known has_file name req s (rw here named.1) method,
          same,
          handle_caladon_known name path req s known,
          named.0,
        )
        (relay-IsForwarded net cfg req (cfg.gateway_base ++ (codes "/v1/" ++ name) ++ req.search)
          (same_text name (codes "chat")) s keyed answers)
