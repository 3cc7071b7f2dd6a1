-- ===== src/Shim/Front.antt =====
-- web-client/shim/src/server.ts: the static front door, which serves the built user interface under
-- its security headers.
use caladon.Prelude.{String, ◌==◌, Bool, not, ◌||◌, List, [], ◌∷◌, if◌then◌else◌}
use Prim.Native.String.{◌++◌ as text_append}
use caladon.Sdk.Text.{Text, codes, starts_with}
use caladon.Shim.Config.{Config}
use caladon.Shim.Relay.{Incoming, Header, Reply, file_reply, not_found}

abbrev pub csp_inline_script_sha256 : String
csp_inline_script_sha256 = "'sha256-ApRfxd0rLedfnw6ZDBJ3VtMvEqlMCVS8OkY8rahs7+Q='"

abbrev pub csp_directives : List String
csp_directives =
    "default-src 'self'"
    ∷ text_append "script-src 'self' 'wasm-unsafe-eval' " csp_inline_script_sha256
    ∷ "style-src 'self' 'unsafe-inline'"
    ∷ "connect-src 'self'"
    ∷ "img-src 'self' data:"
    ∷ "font-src 'self' data:"
    ∷ "worker-src 'self' blob:"
    ∷ "object-src 'none'"
    ∷ "base-uri 'self'"
    ∷ "frame-ancestors 'none'"
    ∷ "form-action 'self'"
    ∷ "manifest-src 'self'"
    ∷ "media-src 'self'"
    ∷ []

-- .join('; ')
unfoldable pub join_directives : List String → String
join_directives [] = ""
join_directives (d ∷ []) = d
join_directives (d ∷ e ∷ ds) = text_append d (text_append "; " (join_directives (e ∷ ds)))

-- setSecurityHeaders(c)
unfoldable pub security_headers : List Header
unfolding join_directives
security_headers =
    ("Content-Security-Policy", join_directives csp_directives)
    ∷ ("X-Content-Type-Options", "nosniff")
    ∷ ("Referrer-Policy", "no-referrer")
    ∷ ("X-Frame-Options", "DENY")
    ∷ ("Cross-Origin-Opener-Policy", "same-origin")
    ∷ ("Cross-Origin-Embedder-Policy", "require-corp")
    ∷ (
      "Permissions-Policy",
      "accelerometer=(), camera=(), geolocation=(), gyroscope=(), magnetometer=(), microphone=(), payment=(), usb=()",
    )
    ∷ ("Strict-Transport-Security", "max-age=15552000; includeSubDomains")
    ∷ []

pub record Served : Type 0 where
  pub reply : Reply
  -- the headers set beside those of the reply
  pub headers : List Header

-- p.startsWith('/api/') || p.startsWith('/pcs-collateral/')
unfoldable pub is_api : Text → Bool
unfolding starts_with
is_api p = starts_with (codes "/api/") p || starts_with (codes "/pcs-collateral/") p

-- The paths of which a missing file is no page of the user interface.
unfoldable pub is_asset : Text → Bool
unfolding starts_with
is_asset p = starts_with (codes "/models/") p || starts_with (codes "/ort/") p

abbrev pub index_html : Text
index_html = codes "index.html"

-- `has_file` tells whether serveStatic finds a file for a path below the static directory.
module _ (has_file : Text → Bool) where
  -- serveStatic with `path: 'index.html'`
  abbrev pub serve_index : Reply
  serve_index = if has_file index_html then file_reply index_html else not_found

  -- app.get('*', …): the fallback for the routes of the user interface
  unfoldable pub fallback : Incoming → Reply
  unfolding is_api is_asset
  fallback req =
      if not (req.method == "GET") || is_api req.path || is_asset req.path
      then not_found
      else serve_index

  unfoldable pub static_reply : Incoming → Reply
  unfolding fallback
  static_reply req = if has_file req.path then file_reply req.path else fallback req

  -- The handlers that are registered if a static directory is set.
  unfoldable pub front : Config → Incoming → Served
  unfolding static_reply security_headers is_api
  front cfg req = elim cfg.static_dir [
    | [] ↦ record { reply = not_found; headers = [] }
    | (c ∷ dir) ↦ record {
      reply = static_reply req;
      headers = if is_api req.path then [] else security_headers;
    }
  ]
