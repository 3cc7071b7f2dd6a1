-- ===== src/Shim/App/Laws.antt =====
-- web-client/shim/src/server.ts: the model list.
use caladon.Prelude.{
  ◌≡◌, String, ◌==◌, false, if◌then◌else◌, Option, none, some, List, [], ◌∷◌, All, length,
}
use caladon.Store.Action.{arr}
use caladon.Shim.Config.{Config}
use caladon.Shim.Relay.{Reply, json_reply, Network, Shim, ModelsCache}
use caladon.Shim.Boot.{object, caladon_endpoint}
use caladon.Shim.Server.{Script, items_of, refresh_models, is_stale}

-- A model's id is a text that is not empty.
abbrev pub IsSlug : String → Type 0
IsSlug id = (id == "") ≡ false

-- The cache holds such ids.
abbrev pub IsClean : Option ModelsCache → Type 0
IsClean none = Unit
IsClean (some c) = All IsSlug c.ids

-- What the interface gets: a list that is not empty, of ids that are not empty.
pub record IsPicker (r : Reply) : Type 0 where
  pub first : String
  pub others : List String
  pub reply : r ≡ json_reply 200 (object ((caladon_endpoint, arr (items_of (first ∷ others))) ∷ []))
  pub slugs : All IsSlug (first ∷ others)

module _ (net : Network) (js : Script) (cfg : Config) where
  -- The state that the handler shows the models of.
  abbrev looked_up : Shim → Shim
  looked_up s =
      if is_stale s.cache (js.now (length s.sent))
      then refresh_models net js cfg (js.now (length s.sent)) s
      else s
