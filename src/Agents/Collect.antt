-- ===== src/Agents/Collect.antt =====
-- collect.ts: the ids of the subagents in the configuration of an agent.
pub mod Laws
use caladon.Prelude.{
  String, ◌==◌, Bool, true, false, not, ◌&&◌, Option, none, some, if◌then◌else◌, List, [], ◌∷◌,
  ◌++◌,
}
use caladon.Store.Action.{Json, Items, Fields, bool, str, obj, nil, cons}
use caladon.Store.Fork.{mem_text}
use caladon.Store.Import.{get_field, items_or_none, member_fields}

-- The first of the properties that is a text.
unfoldable pub first_text : List String → Fields → String
unfolding get_field
first_text [] fs = ""
first_text (k ∷ ks) fs = elim (get_field k fs) [ some (str s) ↦ s | _ ↦ first_text ks fs ]

-- idOf(v)
unfoldable pub id_of : Option Json → String
unfolding first_text
id_of (some (str s)) = s
id_of (some (obj fs)) = first_text ("id" ∷ "agent_id" ∷ "agentId" ∷ []) fs
id_of _ = ""

-- edge?.to
unfoldable pub target_of : Json → Option Json
unfolding get_field
target_of (obj fs) = get_field "to" fs
target_of e = none

abbrev pub is_self : String → Option String → Bool
is_self id none = false
is_self id (some self) = id == self

-- id && id !== selfId
unfoldable pub is_kept : Option String → String → Bool
is_kept self id = not (id == "") && not (is_self id self)

-- the values that the loops push
unfoldable pub values : Items → List (Option Json)
values nil = []
values (cons v vs) = some v ∷ values vs

unfoldable pub targets : Items → List (Option Json)
unfolding target_of
targets nil = []
targets (cons e es) = target_of e ∷ targets es

-- push, over a list of values
unfoldable pub pushed : Option String → List (Option Json) → List String
unfolding id_of is_kept
pushed self [] = []
pushed self (v ∷ vs) =
    let rest = pushed self vs in if is_kept self (id_of v) then id_of v ∷ rest else rest

-- sub.enabled !== false
abbrev pub is_enabled : Option Json → Bool
is_enabled (some (bool false)) = false
is_enabled _ = true

-- The list of ids of the property `subagents`.
unfoldable pub subagent_values : Option Json → List (Option Json)
unfolding get_field values
subagent_values (some (obj fs)) =
    if is_enabled (get_field "enabled" fs)
    then values (items_or_none (get_field "agent_ids" fs))
    else []
subagent_values _ = []

-- Array.from(new Set(out)): each text where it stands first, without those of `seen`.
unfoldable pub distinct : List String → List String → List String
unfolding mem_text
distinct seen [] = []
distinct seen (x ∷ xs) =
    let rest = distinct seen xs in
    let fresh = distinct (x ∷ seen) xs in if mem_text x seen then rest else x ∷ fresh

-- What the configuration names, in the order of the three controls.
unfoldable pub named : Fields → List (Option Json)
unfolding get_field values targets subagent_values
named cfg =
    values (items_or_none (get_field "agent_ids" cfg))
    ++ subagent_values (get_field "subagents" cfg)
    ++ targets (items_or_none (get_field "edges" cfg))

-- The properties of null cannot be read: the code throws.
unfoldable pub collected : Option String → Option Fields → Option (List String)
unfolding pushed distinct named
collected self none = none
collected self (some cfg) = some (distinct [] (pushed self (named cfg)))

unfoldable pub of_parsed : Option String → Option Json → Option (List String)
unfolding collected member_fields
of_parsed self none = some []
of_parsed self (some j) = collected self (member_fields j)

-- collectSubagentIds(configJson, selfId): `none` is a throw.
unfoldable pub collect_subagent_ids :
    (String → Option Json) → Option String → Option String → Option (List String)
unfolding of_parsed
collect_subagent_ids parse none self = some []
collect_subagent_ids parse (some config) self =
    if config == "" then some [] else of_parsed self (parse config)
