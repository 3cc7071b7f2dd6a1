-- ===== src/Store/Fork/Copy.antt =====
-- store.worker.ts, forkConversation: the new conversation and its messages, and the rows that were
-- there before.
use caladon.Store.Fork.Ids.{Renamed}
use caladon.Store.Fork.{fork_body, fork_conversation}
use Prim.Native.String.{◌++◌ as text_append}
use caladon.Store.Import.{get_field}
use caladon.Store.Action.{Fields, obj, str}
use caladon.Store.Action.{Outcome}
use caladon.Store.Fork.{fork_body, fork_conversation, lineage_of, map_get}
use caladon.Store.Tables.{Tables, convo_key}
use caladon.Store.Action.{Env, World, ok}
use caladon.Store.Turns.{messages_of}
use caladon.Store.Rows.{StoredMessage, message_to_row, StoredConversation, row_to_message}
use caladon.Table.{find}
use caladon.Prelude.{ℕ, ◌≡◌, String, some, List, [], ◌∷◌, ◌++◌, map, Option, none, ◌≢◌}

-- The lineage that a fork copies.
abbrev pub lineage_in : Tables → String → String → List StoredMessage
lineage_in t id from = lineage_of (map row_to_message (messages_of id t)) from

-- A copy of a message: its id is the one that the map gives for the message's, its parent is the one
-- that the map gives for the parent's, and it has the content of the message.
pub record IsCopy (ids : List (String × String)) (new_id : String) (now : ℕ) (m c : StoredMessage)
    : Type 0 where
  pub renamed : map_get m.message_id ids ≡ some c.message_id
  pub of_fork : c.conversation_id ≡ new_id
  pub linked :
      (p : String) → m.parent_message_id ≡ some p → p ≢ "" → c.parent_message_id ≡ map_get p ids
  pub top : m.parent_message_id ≡ none → c.parent_message_id ≡ none
  pub mine : c.is_created_by_user ≡ m.is_created_by_user
  pub text : c.text ≡ m.text
  pub content : c.content_json ≡ m.content_json
  pub model : c.model ≡ m.model
  pub created : c.created_at ≡ m.created_at
  pub updated : c.updated_at ≡ now

abbrev pub AreCopies :
    List (String × String) → String → ℕ → List StoredMessage → List StoredMessage → Type 0
AreCopies ids new_id now [] [] = Unit
AreCopies ids new_id now (m ∷ ms) (c ∷ cs) =
    IsCopy ids new_id now m c × AreCopies ids new_id now ms cs
AreCopies ids new_id now _ _ = ⊥

-- What the row of a fork takes from the conversation that it forks.
pub record IsForkedFrom (env : Env) (src row : StoredConversation) : Type 0 where
  pub endpoint : row.endpoint ≡ src.endpoint
  pub model : row.model ≡ src.model
  pub titled : (t : String) → src.title ≡ some t → row.title ≡ some (text_append t " (fork)")
  pub untitled : src.title ≡ none → row.title ≡ some "Conversation (fork)"
  pub json :
      (fs : Fields)
      → env.parse_json src.convo_json ≡ some (obj fs)
      → (out : Fields) × (row.convo_json ≡ env.stringify (obj out))
        × (get_field "conversationId" out ≡ some (str row.conversation_id))

abbrev pub FromSource : Env → Option StoredConversation → StoredConversation → Type 0
FromSource env none row = row.title ≡ some "Conversation (fork)"
FromSource env (some src) row = IsForkedFrom env src row

-- A fork: a new conversation row made from the source's, and a copy of each message of the lineage;
-- every other row is as it was.
pub record IsFork (env : Env) (id from : String) (w : World) (r : Outcome String) (t : Tables)
    : Type 0 where
  pub new_id : String
  pub now : ℕ
  pub first : ℕ
  pub ids : List (String × String)
  pub row : StoredConversation
  pub copies : List StoredMessage
  pub returned : r ≡ ok new_id
  pub renamed : Renamed env ids first (lineage_in w.tables id from)
  pub row_id : row.conversation_id ≡ new_id
  pub row_times : (row.created_at ≡ now) × (row.updated_at ≡ now)
  pub row_source : FromSource env (find convo_key id w.tables.conversations) row
  pub are_copies : AreCopies ids new_id now (lineage_in w.tables id from) copies
  pub written : t ≡ record w.tables {
    conversations = w.tables.conversations ++ row ∷ [];
    messages = w.tables.messages ++ map message_to_row copies;
  }
