-- ===== src/Tests/Agents.antt =====
-- The collection of subagents at concrete configurations.
use caladon.Prelude.{◌≡◌, refl, String, true, Option, none, some, [], ◌∷◌}
use caladon.Store.Action.{Json, Fields, null, bool, str, arr, obj, nil, cons, end, field}
use caladon.Agents.Collect.{collect_subagent_ids}
use caladon.Agents.Collect.Laws.{IsChain, collect_subagent_ids-IsChain}

-- the three controls, with a repeated id, the agent's own and an empty one
abbrev three_controls : Fields
three_controls = field "agent_ids" (arr (cons (str "a") (cons (str "self") (cons (str "") nil)))) (
    field "subagents"
      (obj (field "enabled" (bool true) (field "agent_ids" (arr (cons (str "b") nil)) end)))
      (field "edges"
        (arr (
          cons (obj (field "to" (obj (field "agent_id" (str "c") end)) end))
            (cons (obj (field "to" (str "a") end)) (cons null nil))))
        end))

abbrev parse : String → Option Json
parse s = some (obj three_controls)

abbrev parse_null : String → Option Json
parse_null s = some null

collects_three : collect_subagent_ids parse (some "{}") (some "self") ≡ some ("a" ∷ "b" ∷ "c" ∷ [])
unfolding collect_subagent_ids
collects_three = refl

-- `null` is JSON, but has no properties
collect_null : collect_subagent_ids parse_null (some "null") none ≡ none
unfolding collect_subagent_ids
collect_null = refl

collect_subagent_ids-IsChain_example :
    IsChain (some "self") three_controls (collect_subagent_ids parse (some "{}") (some "self"))
collect_subagent_ids-IsChain_example =
    collect_subagent_ids-IsChain parse (some "self") "{}" three_controls refl refl
