-- ===== src/Tests/Shim.antt =====
-- The shim before a gateway of constant answers.
use caladon.Prelude.{◌≡◌, refl, true, false, none, some, [], ◌∷◌, ◌++◌}
use caladon.Sdk.Text.{codes}
use caladon.Sdk.Client.{same_text}
use caladon.Table.{has}
use caladon.Shim.Config.{Config, Process, config_of, own_property}
use caladon.Shim.Relay.{Incoming, Answer, answered, Network, Shim}
use caladon.Shim.Relay.Forwarding.{IsForwarded}
use caladon.Shim.Server.{Script}
use caladon.Shim.Middleware.{Hono}
use caladon.Shim.App.{serve}
use caladon.Shim.App.Gateway.{serve-IsForwarded}

abbrev process : Process
process = record { env = λ k. none; parse_int = λ s. some 1 }

abbrev cfg : Config
cfg = record {
  gateway_base = codes "https://gw";
  pcs_base = codes "https://pcs";
  root_ca_crl_url = codes "https://crl";
  port = some 8787;
  allowed_origins = [];
  upstream_timeout_ms = some 30000;
  session_cookie_name = codes "sid";
  session_max_age_s = some 60;
  cookie_secure = true;
  static_dir = codes "dist";
}

abbrev answer : Answer
answer = record {
  status = 200;
  status_text = "OK";
  headers = ("set-cookie", "a=b") ∷ ("content-type", "text/event-stream") ∷ [];
  body = 1 ∷ [];
}

abbrev net : Network
net = record { fetch = λ n up. answered answer; lower = λ k. k }

abbrev js : Script
js = record {
  now = λ n. 5;
  inherited = λ k. none;
  parse_json = λ b. none;
  parse_models = λ b. some (none ∷ some "" ∷ some "phala/a" ∷ []);
}

abbrev start : Shim
start = record { cache = none; sent = [] }

abbrev chat_request : Incoming
chat_request = record {
  method = "POST";
  path = codes "/api/caladon/chat";
  search = codes "?x=1";
  headers = ("authorization", "Swifty s") ∷ ("cookie", "sid=1") ∷ [];
  body = 9 ∷ [];
}

-- Hono where the request is no preflight and has no cookie
abbrev hono : Hono
hono = record {
  cors = λ options req. record { preflight = none; headers = [] };
  get_cookie = λ req name. none;
  random_token = λ n. codes "token";
}

serve-IsForwarded_example :
    IsForwarded net chat_request
      (cfg.gateway_base ++ (codes "/v1/" ++ codes "chat") ++ codes "?x=1")
      (same_text (codes "chat") (codes "chat"))
      start
      (serve net js cfg (λ t. t) (λ t. "") hono (λ t. false) chat_request start).0.reply
      (serve net js cfg (λ t. t) (λ t. "") hono (λ t. false) chat_request start).1
unfolding own_property same_text has
serve-IsForwarded_example =
    serve-IsForwarded net js cfg (λ t. t) (λ t. "") hono (λ t. false) (codes "chat")
      (codes "/v1/chat") chat_request start refl refl refl refl refl (refl, (refl, tt))
      (λ n up. (refl, (refl, tt)))

-- The cookie stays, the signature goes on.
forwarded_headers :
    (serve net js cfg (λ t. t) (λ t. "") hono (λ t. false) chat_request start).1.sent
    ≡ record {
      url = codes "https://gw/v1/chat?x=1";
      method = "POST";
      headers = ("authorization", "Swifty s") ∷ [];
      body = some (9 ∷ []);
      has_limit = false;
      limit = none;
    }
      ∷ []
unfolding serve same_text own_property
forwarded_headers = refl

default_gateway : (config_of process).gateway_base ≡ codes "https://gw.caladon.ai"
unfolding config_of
default_gateway = refl
