-- ===== src/Store/Fork.antt =====
-- store.worker.ts, forkConversation: the lineage from the root to the fork point is copied into a new
-- conversation, with new ids.
pub mod Lineage
pub mod Ids
pub mod Copy
use Prim.Native.String.{◌++◌ as text_append}
use caladon.Prelude.{
  ℕ, zero, suc, String, ◌==◌, Bool, false, ◌||◌, Option, none, some, List, [], ◌∷◌, map, length,
  if◌then◌else◌,
}
use caladon.Table.{find}
use caladon.Store.Rows.{StoredConversation, StoredMessage, row_to_message}
use caladon.Store.Tables.{convo_key}
use caladon.Store.Action.{
  Env, Json, Fields, str, arr, obj, end, field, Action, pure, ◌>>=◌, ◌>>◌, query, date_now,
  random_id, tx,
}
use caladon.Store.Turns.{messages_of, upsert_convo, upsert_message}

abbrev pub stored_key : StoredMessage → String
stored_key m = m.message_id

unfoldable pub mem_text : String → List String → Bool
mem_text k [] = false
mem_text k (x ∷ xs) = x == k || mem_text k xs

-- `cur.parentMessageId ? byId.get(cur.parentMessageId) : undefined`; the empty text is falsy.
unfoldable pub parent_of : List StoredMessage → StoredMessage → Option StoredMessage
parent_of all m = elim m.parent_message_id [
  | none ↦ none
  | some p ↦ if p == "" then none else find stored_key p all
]

-- The `while` of the walk, with fuel. The lineage grows at its front, so it is the reversed one.
unfoldable pub walk :
    ℕ
    → List StoredMessage
    → Option StoredMessage
    → List String
    → List StoredMessage
    → List StoredMessage
unfolding mem_text parent_of
walk zero all cur guard lineage = lineage
walk (suc fuel) all none guard lineage = lineage
walk (suc fuel) all (some m) guard lineage =
    let rest = walk fuel all (parent_of all m) (m.message_id ∷ guard) (m ∷ lineage) in
    if mem_text m.message_id guard then lineage else rest

unfoldable pub lineage_of : List StoredMessage → String → List StoredMessage
unfolding walk
lineage_of all from = walk (suc (length all)) all (find stored_key from all) [] []

-- `parsed.conversationId = id`: the field is overwritten in its place, or added at the end.
unfoldable pub set_field : String → Json → Fields → Fields
set_field k v end = field k v end
set_field k v (field j w fs) =
    let rest = set_field k v fs in if j == k then field k v fs else field j w rest

-- The text of the clone. Setting a property throws on null and on a primitive, and an array's extra
-- property is not serialized.
unfoldable pub rekeyed : Env → String → String → Option Json → String
unfolding set_field
rekeyed env id source none = source
rekeyed env id source (some (obj fs)) = env.stringify (obj (set_field "conversationId" (str id) fs))
rekeyed env id source (some (arr xs)) = env.stringify (arr xs)
rekeyed env id source (some _) = source

abbrev pub fork_title : Option String → String
fork_title none = "Conversation (fork)"
fork_title (some t) = text_append t " (fork)"

unfoldable pub forked_convo : Env → String → ℕ → Option StoredConversation → StoredConversation
unfolding rekeyed
forked_convo env id now none = record {
  conversation_id = id;
  title = some "Conversation (fork)";
  endpoint = none;
  model = none;
  created_at = now;
  updated_at = now;
  convo_json = rekeyed env id "{}" (env.parse_json "{}");
}
forked_convo env id now (some src) = record {
  conversation_id = id;
  title = some (fork_title src.title);
  endpoint = src.endpoint;
  model = src.model;
  created_at = now;
  updated_at = now;
  convo_json = rekeyed env id src.convo_json (env.parse_json src.convo_json);
}

-- idMap.get(k), the Map as the list of its entries.
unfoldable pub map_get : String → List (String × String) → Option String
map_get k [] = none
map_get k ((j, v) ∷ m) = if j == k then some v else map_get k m

-- `idMap.get(m.messageId)!`: the lineage is the domain of the map.
abbrev pub or_self : String → Option String → String
or_self d none = d
or_self d (some v) = v

abbrev pub remapped_parent : List (String × String) → Option String → Option String
remapped_parent ids none = none
remapped_parent ids (some p) = if p == "" then none else map_get p ids

unfoldable pub forked_message : List (String × String) → String → ℕ → StoredMessage → StoredMessage
unfolding map_get
forked_message ids convo now m = record m {
  message_id = or_self m.message_id (map_get m.message_id ids);
  conversation_id = convo;
  parent_message_id = remapped_parent ids m.parent_message_id;
  updated_at = now;
}

module _ (env : Env) where
  -- for (const m of lineage) idMap.set(m.messageId, randomId())
  unfoldable pub new_ids : List StoredMessage → Action (List (String × String))
  unfolding random_id
  new_ids [] = pure []
  new_ids (m ∷ ms) = do id ← random_id env; ids ← new_ids ms; pure ((m.message_id, id) ∷ ids)

  unfoldable pub upsert_all : List StoredMessage → Action (Unit {0})
  unfolding upsert_message
  upsert_all [] = pure tt
  upsert_all (m ∷ ms) = do upsert_message env m; upsert_all ms

  unfoldable pub fork_body : String → String → Action String
  unfolding query date_now random_id messages_of lineage_of forked_convo forked_message upsert_convo
      new_ids upsert_all
  fork_body id from = do
    rows ← query env (messages_of id)
    src ← query env (λ t. find convo_key id t.conversations)
    now ← date_now env
    new_id ← random_id env
    upsert_convo env (forked_convo env new_id now src)
    ids ← new_ids (lineage_of (map row_to_message rows) from)
    upsert_all (map (forked_message ids new_id now) (lineage_of (map row_to_message rows) from))
    pure new_id

  unfoldable pub fork_conversation : String → String → Action String
  unfolding fork_body tx
  fork_conversation id from = tx env (fork_body id from)
