-- ===== src/Shim/Relay.antt =====
-- web-client/shim/src/proxy.ts: the relay of one request to an upstream server. fetch is a parameter:
-- its answer to the n-th request of the shim.
pub mod Headers
pub mod Forwarding
use caladon.Prelude.{
  ℕ, String, ◌==◌, Bool, false, not, ◌&&◌, ◌||◌, Option, none, some, List, [], ◌∷◌, ◌++◌,
  if◌then◌else◌, length,
}
use caladon.Table.{upsert}
use caladon.Sdk.Text.{Text}
use caladon.Store.Action.{Json, str, obj, end, field}
use caladon.Shim.Config.{Config}

-- A header: its name and its value.
abbrev pub Header : Type 0
Header = String × String

abbrev pub header_name : Header → String
header_name h = h.0

pub record Incoming : Type 0 where
  pub method : String
  -- c.req.path, and the search of its URL
  pub path : Text
  pub search : Text
  pub headers : List Header
  pub body : List ℕ

-- A request of the shim: fetch(url, init). A signal is a time limit.
pub record Upstream : Type 0 where
  pub url : Text
  pub method : String
  pub headers : List Header
  pub body : Option (List ℕ)
  pub has_limit : Bool
  pub limit : Option ℕ

pub record Answer : Type 0 where
  pub status : ℕ
  pub status_text : String
  pub headers : List Header
  pub body : List ℕ

pub data Fetched : Type 0 where
  answered : Answer → Fetched
  aborted unreachable : Fetched

-- What the shim answers: a response that it passes on, one that it makes itself, or a file of the
-- built user interface.
pub data Reply : Type 0 where
  relayed : Answer → Reply
  json_reply : ℕ → Json → Reply
  text_reply : Text → Reply
  file_reply : Text → Reply
  empty_reply not_found : Reply

-- The answers of the network, and String.prototype.toLowerCase.
pub record Network : Type 0 where
  pub fetch : ℕ → Upstream → Fetched
  pub lower : String → String

-- _modelsCache
pub record ModelsCache : Type 0 where
  pub at : ℕ
  pub ids : List String

-- The shim keeps the cache of the models, and nothing else; `sent` are the requests that it has sent.
pub record Shim : Type 0 where
  pub cache : Option ModelsCache
  pub sent : List Upstream

abbrev pub Handler : Type 0 → Type 0
Handler A = Shim → A × Shim

abbrev pub one_of : List String → String → Bool
one_of [] k = false
one_of (x ∷ xs) k = x == k || one_of xs k

unfoldable pub strip_to_upstream : String → Bool
strip_to_upstream = one_of (
    "host" ∷ "connection" ∷ "keep-alive" ∷ "proxy-authorization" ∷ "proxy-connection"
    ∷ "transfer-encoding" ∷ "upgrade" ∷ "te" ∷ "trailer" ∷ "cookie" ∷ "content-length" ∷ [])

unfoldable pub strip_from_upstream : String → Bool
strip_from_upstream = one_of (
    "connection" ∷ "keep-alive" ∷ "transfer-encoding" ∷ "upgrade" ∷ "trailer" ∷ "set-cookie"
    ∷ "access-control-allow-origin" ∷ "access-control-allow-credentials"
    ∷ "access-control-allow-headers" ∷ "access-control-allow-methods" ∷ "content-encoding"
    ∷ "content-length" ∷ [])

-- out.set(key, value)
abbrev pub set_header : Header → List Header → List Header
set_header h out = upsert header_name (λ old new. new) h out

abbrev pub bad_gateway : String → Reply
bad_gateway reason =
    json_reply 502 (obj (field "error" (str "bad_gateway") (field "reason" (str reason) end)))

module _ (net : Network) where
  -- headers.forEach((value, key) => { if (!strip.has(key.toLowerCase())) out.set(key, value); })
  unfoldable pub copy_headers : (String → Bool) → List Header → List Header → List Header
  unfolding upsert
  copy_headers strip [] out = out
  copy_headers strip (h ∷ hs) out =
      copy_headers strip hs (if strip (net.lower h.0) then out else set_header h out)

  unfoldable pub build_upstream_headers : List Header → List Header
  unfolding copy_headers strip_to_upstream
  build_upstream_headers hs = copy_headers strip_to_upstream hs []

  unfoldable pub build_client_headers : List Header → List Header
  unfolding copy_headers strip_from_upstream
  build_client_headers hs = copy_headers strip_from_upstream hs []

  abbrev pub has_body : String → Bool
  has_body method = not (method == "GET") && not (method == "HEAD")

  module _ (cfg : Config) where
    unfoldable pub upstream_request : Incoming → Text → Bool → Upstream
    unfolding build_upstream_headers
    upstream_request req url is_stream = record {
      url = url;
      method = req.method;
      headers = build_upstream_headers req.headers;
      body = if has_body req.method then some req.body else none;
      has_limit = not is_stream;
      limit = if is_stream then none else cfg.upstream_timeout_ms;
    }

    unfoldable pub relay_reply : Fetched → Reply
    unfolding build_client_headers
    relay_reply (answered a) = relayed (record a { headers = build_client_headers a.headers })
    relay_reply aborted = bad_gateway "gateway_timeout"
    relay_reply unreachable = bad_gateway "gateway_unreachable"

    -- fetch(url, init)
    unfoldable pub send : Upstream → Handler Fetched
    send up s = (net.fetch (length s.sent) up, record s { sent = s.sent ++ up ∷ [] })

    -- relay(c, upstreamUrl, isStream)
    unfoldable pub relay : Incoming → Text → Bool → Handler Reply
    unfolding upstream_request send relay_reply
    relay req url is_stream s =
        let (res, s') = send (upstream_request req url is_stream) s in (relay_reply res, s')
