-- ===== src/Shim/App/Egress.antt =====
-- web-client/shim/src/server.ts: which servers the shim sends requests to.
use caladon.Prelude.{◌≡◌, String, Option, some, List, [], ◌∷◌, ◌++◌}
use caladon.Sdk.Text.{Text, codes}
use caladon.Shim.Config.{Config}
use caladon.Shim.Relay.{Upstream, Reply, Network, Shim, Handler}
use caladon.Shim.Server.{Script, without_slash}

-- A URL of one of the servers of the configuration: below the gateway or the collateral server, or the
-- URL of the revocation list.
pub data IsOwn (cfg : Config) (url : Text) : Type 0 where
  of_gateway : (rest : Text) → url ≡ cfg.gateway_base ++ rest → IsOwn cfg url
  of_models : url ≡ without_slash cfg.gateway_base ++ codes "/v1/models" → IsOwn cfg url
  of_collateral : (rest : Text) → url ≡ cfg.pcs_base ++ rest → IsOwn cfg url
  of_crl : url ≡ cfg.root_ca_crl_url → IsOwn cfg url

-- At most one request was sent, and that to a server of the configuration.
pub data IsContained (cfg : Config) (before after : List Upstream) : Type 0 where
  nothing : after ≡ before → IsContained cfg before after
  one :
      (up : Upstream) → after ≡ before ++ up ∷ [] → IsOwn cfg up.url → IsContained cfg before after

module _ (net : Network) (js : Script) (cfg : Config) (decode : Text → Text)
    (text_of : Text → String) where
  -- What the handler that is found sends.
  record AreContained (o : Option (Handler Reply)) : Type 0 where
    at : (h : Handler Reply) → o ≡ some h → (s : Shim) → IsContained cfg s.sent (h s).1.sent
