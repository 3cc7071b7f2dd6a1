-- ===== src/Shim/Relay/Forwarding.antt =====
-- web-client/shim/src/proxy.ts: what the relay sends to the upstream server, and what comes back.
use caladon.Store.Fork.{mem_text}
use caladon.Prelude.{
  List, ◌==◌, ◌||◌, ◌&&◌, ap, ◌∙◌, arith, Bool, ℕ, ◌≡◌, refl, String, Bool, not, if◌then◌else◌,
  none, some, [], ◌∷◌, ◌++◌, length,
}
use caladon.Table.{find, IsKeyed}
use caladon.Sdk.Text.{Text}
use caladon.Shim.Config.{Config}
use caladon.Shim.Relay.{
  header_name, Incoming, Upstream, Answer, Fetched, answered, aborted, unreachable, Reply, relayed,
  bad_gateway, Network, Shim, send, relay, relay_reply, upstream_request, build_client_headers,
  strip_to_upstream, strip_from_upstream,
}
use caladon.Shim.Relay.Headers.{find-build_upstream_headers, find-build_client_headers}

-- The headers of the connection and the cookies, which the gateway does not see, and those of the
-- connection, the cookies, the encoding and CORS, which the browser does not see from it.
abbrev pub kept_back : List String
kept_back =
    "host" ∷ "connection" ∷ "keep-alive" ∷ "proxy-authorization" ∷ "proxy-connection"
    ∷ "transfer-encoding" ∷ "upgrade" ∷ "te" ∷ "trailer" ∷ "cookie" ∷ "content-length" ∷ []

abbrev pub not_shown : List String
not_shown =
    "connection" ∷ "keep-alive" ∷ "transfer-encoding" ∷ "upgrade" ∷ "trailer" ∷ "set-cookie"
    ∷ "access-control-allow-origin" ∷ "access-control-allow-credentials"
    ∷ "access-control-allow-headers" ∷ "access-control-allow-methods" ∷ "content-encoding"
    ∷ "content-length" ∷ []

strip_to_upstream_lem : (k : String) → strip_to_upstream k ≡ mem_text k kept_back
unfolding strip_to_upstream mem_text
strip_to_upstream_lem k = refl

strip_from_upstream_lem : (k : String) → strip_from_upstream k ≡ mem_text k not_shown
unfolding strip_from_upstream mem_text
strip_from_upstream_lem k = refl

body_lem :
    (method : String) (body : List ℕ)
    → (if not (method == "GET") && not (method == "HEAD") then some body else none)
      ≡ (if method == "GET" || method == "HEAD" then none else some body)
body_lem method body = ground arith

-- An answer that is passed on: the status and the body as they came, and the headers that may pass.
pub record IsPassedOn (net : Network) (a : Answer) (r : Reply) : Type 0 where
  pub out : Answer
  pub reply : r ≡ relayed out
  pub status : out.status ≡ a.status
  pub body : out.body ≡ a.body
  pub headers :
      (k : String)
      → find header_name k out.headers
        ≡ (if mem_text (net.lower k) not_shown then none else find header_name k a.headers)

-- How the reply shows what came of the request upstream.
unfoldable pub IsShown : Network → Fetched → Reply → Type 0
IsShown net (answered a) r = IsPassedOn net a r
IsShown net aborted r = r ≡ bad_gateway "gateway_timeout"
IsShown net unreachable r = r ≡ bad_gateway "gateway_unreachable"

-- A request that is forwarded: one request is sent, to the URL, with the method and the body as they
-- came and the headers that may pass, and with a time limit unless the answer is a stream.
pub record IsForwarded (net : Network) (req : Incoming) (target : Text) (is_stream : Bool)
    (s : Shim) (r : Reply) (s' : Shim) : Type 0 where
  pub up : Upstream
  pub sent : s'.sent ≡ s.sent ++ up ∷ []
  pub url : up.url ≡ target
  pub method : up.method ≡ req.method
  pub body : up.body ≡ (if req.method == "GET" || req.method == "HEAD" then none else some req.body)
  pub limited : up.has_limit ≡ not is_stream
  pub headers :
      (k : String)
      → find header_name k up.headers
        ≡ (if mem_text (net.lower k) kept_back then none else find header_name k req.headers)
  pub shown : IsShown net (net.fetch (length s.sent) up) r

-- The headers of an answer have each name once.
abbrev pub HeadersKeyed : Fetched → Type 0
HeadersKeyed (answered a) = IsKeyed header_name a.headers
HeadersKeyed aborted = Unit
HeadersKeyed unreachable = Unit

-- A Headers object of the network has each name once.
abbrev pub AnswersKeyed : Network → Type 0
AnswersKeyed net = (n : ℕ) (up : Upstream) → HeadersKeyed (net.fetch n up)

module _ (net : Network) (cfg : Config) where
  relay_reply-IsShown : (f : Fetched) → HeadersKeyed f → IsShown net f (relay_reply net cfg f)
  unfolding relay_reply IsShown
  relay_reply-IsShown (answered a) keyed = record {
    out = record a { headers = build_client_headers net a.headers };
    reply = refl;
    status = refl;
    body = refl;
    headers = λ k.
        find-build_client_headers net a.headers keyed k
        ∙ ap (λ b. if b then none else find header_name k a.headers)
            (strip_from_upstream_lem (net.lower k));
  }
  relay_reply-IsShown aborted keyed = refl
  relay_reply-IsShown unreachable keyed = refl

  -- The relay of a request, where the headers of the request and of an answer have each name once.
  pub relay-IsForwarded :
      (req : Incoming) (url : Text) (is_stream : Bool) (s : Shim)
      → IsKeyed header_name req.headers
      → AnswersKeyed net
      → IsForwarded net req url is_stream s
          (relay net cfg req url is_stream s).0
          (relay net cfg req url is_stream s).1
  unfolding relay send upstream_request
  relay-IsForwarded req url is_stream s keyed answers = record {
    up = upstream_request net cfg req url is_stream;
    sent = refl;
    url = refl;
    method = refl;
    body = body_lem req.method req.body;
    limited = refl;
    headers = λ k.
        find-build_upstream_headers net req.headers keyed k
        ∙ ap (λ b. if b then none else find header_name k req.headers)
            (strip_to_upstream_lem (net.lower k));
    shown =
        relay_reply-IsShown (net.fetch (length s.sent) (upstream_request net cfg req url is_stream))
          (answers (length s.sent) (upstream_request net cfg req url is_stream));
  }
