-- ===== src/Store/History.antt =====
-- store.worker.ts: the worlds that the worker's operations lead to, one after the other, from a
-- fresh database. An operation that throws is a step too.
use caladon.Store.Turns.{persist_turn, delete_convo}
use caladon.Store.Fork.{fork_conversation}
use caladon.Store.Vectors.{store_vectors}
use caladon.Store.Rows.{StoredAgent, StoredConversation, StoredMessage, StoredSkill, VectorChunk}
use caladon.Store.Tables.{IsConsistent, IsConsistent-empty, empty_tables}
use caladon.Store.Action.{Env, World, Json}
use caladon.Store.Import.{Dynamic, import_chat_export}
use caladon.Store.Worker.Soundness.{dropped_vectors}
use caladon.Prelude.{ℕ, String, Option, List, []}
use caladon.Store.Records.{
  upsert_memory, delete_memory, upsert_agent, delete_agent, upsert_skill, delete_skill, clear_all,
}
use caladon.Store.Consistency.{
  persist_turn-Keeps, delete_convo-Keeps, fork_conversation-Keeps, store_vectors-Keeps,
  upsert_memory-Keeps, delete_memory-Keeps, upsert_agent-Keeps, delete_agent-Keeps,
  upsert_skill-Keeps, delete_skill-Keeps, clear_all-Keeps, import_chat_export-Keeps,
}

-- One operation that changes rows.
pub data Step (env : Env) : World → World → Type 0 where
  persisted :
      (c : StoredConversation) (u a : StoredMessage) (w : World)
      → Step env w (persist_turn env c u a w).1
  deleted : (id : String) (w : World) → Step env w (delete_convo env id w).1
  forked : (id from : String) (w : World) → Step env w (fork_conversation env id from w).1
  embedded :
      (owner : String) (cs : List VectorChunk) (w : World)
      → Step env w (store_vectors env owner cs w).1
  remembered :
      (text_length : String → ℕ) (key value : String) (previous : Option String) (w : World)
      → Step env w (upsert_memory env text_length key value previous w).1
  forgotten : (key : String) (w : World) → Step env w (delete_memory env key w).1
  agent_stored : (a : StoredAgent) (w : World) → Step env w (upsert_agent env a w).1
  agent_deleted : (id : String) (w : World) → Step env w (delete_agent env id w).1
  skill_stored : (s : StoredSkill) (w : World) → Step env w (upsert_skill env s w).1
  skill_deleted : (id : String) (w : World) → Step env w (delete_skill env id w).1
  imported :
      (d : Dynamic) (json : Json) (w : World) → Step env w (import_chat_export d env json w).1
  -- init drops the embeddings of the first schema
  migrated :
      (n : ℕ) (w : World)
      → Step env w (record { tables = record w.tables { message_embeddings = [] }; tick = n })
  cleared : (w : World) → Step env w (clear_all env w).1

pub data Reachable (env : Env) : World → Type 0 where
  created : (n : ℕ) → Reachable env (record { tables = empty_tables; tick = n })
  after : (v w : World) → Reachable env v → Step env v w → Reachable env w

Step-IsConsistent :
    (env : Env) (v w : World) → Step env v w → IsConsistent v.tables → IsConsistent w.tables
Step-IsConsistent env v w (persisted c u a _) h = (persist_turn-Keeps env c u a).at v h
Step-IsConsistent env v w (deleted id _) h = (delete_convo-Keeps env id).at v h
Step-IsConsistent env v w (forked id from _) h = (fork_conversation-Keeps env id from).at v h
Step-IsConsistent env v w (embedded owner cs _) h = (store_vectors-Keeps env owner cs).at v h
Step-IsConsistent env v w (remembered n key value previous _) h =
    (upsert_memory-Keeps env n key value previous).at v h
Step-IsConsistent env v w (forgotten key _) h = (delete_memory-Keeps env key).at v h
Step-IsConsistent env v w (agent_stored a _) h = (upsert_agent-Keeps env a).at v h
Step-IsConsistent env v w (agent_deleted id _) h = (delete_agent-Keeps env id).at v h
Step-IsConsistent env v w (skill_stored s _) h = (upsert_skill-Keeps env s).at v h
Step-IsConsistent env v w (skill_deleted id _) h = (delete_skill-Keeps env id).at v h
Step-IsConsistent env v w (imported d json _) h = (import_chat_export-Keeps env d json).at v h
Step-IsConsistent env v w (migrated n _) h = dropped_vectors v.tables h
Step-IsConsistent env v w (cleared _) h = (clear_all-Keeps env).at v h

-- Whatever operations that change rows the worker runs, imports and the migration of init among them,
-- on a fresh database whose init has come to its end, in whatever order, and whichever of their
-- statements fail, the constraints of the schema hold: the primary keys of the tables are unique,
-- and every message belongs to a conversation.
pub Reachable-IsConsistent : (env : Env) (w : World) → Reachable env w → IsConsistent w.tables
Reachable-IsConsistent env w (created n) = IsConsistent-empty
Reachable-IsConsistent env w (after v _ r s) =
    Step-IsConsistent env v w s (Reachable-IsConsistent env v r)
