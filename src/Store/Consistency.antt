-- ===== src/Store/Consistency.antt =====
-- Every operation of store.worker.ts keeps the constraints of the schema, on every path: returned,
-- refused by a constraint, or failed by the engine.
pub mod Convos
mod Records
use caladon.Prelude.{ℕ, String, Option, List}
use caladon.Store.Rows.{StoredConversation, StoredMessage, VectorChunk, StoredAgent, StoredSkill}
use caladon.Store.Tables.{IsConsistent}
use caladon.Store.Action.{Env, Json, ok}
use caladon.Store.Action.Keeps.{Keeps, Preserves, Preserves-ok, keeps_rules}
use caladon.Store.Turns.{persist_turn, delete_convo}
use caladon.Store.Fork.{fork_conversation}
use caladon.Store.Vectors.{store_vectors}
use caladon.Store.Records.{
  upsert_memory, delete_memory, upsert_agent, delete_agent, upsert_skill, delete_skill, clear_all,
}
use caladon.Store.Keeping.{
  ChatKept, persist_turn_kept, delete_convo_kept, fork_conversation_kept, store_vectors_kept,
  import_chat_export_kept,
}
use caladon.Store.Import.{Dynamic, import_chat_export}
use Convos.{insert_convo-Preserves, insert_message-Preserves, remove_convo-Preserves}
use Records.{
  delete_vectors-Preserves, insert_vector-Preserves, insert_memory-Preserves,
  remove_memory-Preserves, insert_agent-Preserves, remove_agent-Preserves, insert_skill-Preserves,
  remove_skill-Preserves, clear_table-Preserves,
}

rebuild-Preserves : Preserves IsConsistent (λ t. ok t)
rebuild-Preserves = Preserves-ok IsConsistent (λ t. t) (λ t h. h)

ruleset consistent_rules = (
  keeps_rules, rebuild-Preserves, insert_memory-Preserves, remove_memory-Preserves,
  insert_agent-Preserves, remove_agent-Preserves, insert_skill-Preserves, remove_skill-Preserves,
  clear_table-Preserves,
)

chat_kept : ChatKept IsConsistent
chat_kept = record {
  insert_convo_kept = insert_convo-Preserves;
  insert_message_kept = insert_message-Preserves;
  remove_convo_kept = remove_convo-Preserves;
  delete_vectors_kept = delete_vectors-Preserves;
  insert_vector_kept = insert_vector-Preserves;
}

module _ (env : Env) where
  pub persist_turn-Keeps :
      (c : StoredConversation) (u a : StoredMessage) → Keeps IsConsistent (persist_turn env c u a)
  persist_turn-Keeps c u a = persist_turn_kept chat_kept env c u a

  pub delete_convo-Keeps : (id : String) → Keeps IsConsistent (delete_convo env id)
  delete_convo-Keeps id = delete_convo_kept chat_kept env id

  pub fork_conversation-Keeps :
      (id from : String) → Keeps IsConsistent (fork_conversation env id from)
  fork_conversation-Keeps id from = fork_conversation_kept chat_kept env id from

  pub store_vectors-Keeps :
      (owner : String) (cs : List VectorChunk) → Keeps IsConsistent (store_vectors env owner cs)
  store_vectors-Keeps owner cs = store_vectors_kept chat_kept env owner cs

  pub import_chat_export-Keeps :
      (d : Dynamic) (json : Json) → Keeps IsConsistent (import_chat_export d env json)
  import_chat_export-Keeps d json = import_chat_export_kept chat_kept env d json

  pub upsert_memory-Keeps :
      (text_length : String → ℕ) (key value : String) (previous : Option String)
      → Keeps IsConsistent (upsert_memory env text_length key value previous)
  unfolding upsert_memory
  upsert_memory-Keeps text_length key value previous = search consistent_rules depth 10

  pub delete_memory-Keeps : (key : String) → Keeps IsConsistent (delete_memory env key)
  unfolding delete_memory
  delete_memory-Keeps key = search consistent_rules

  pub upsert_agent-Keeps : (a : StoredAgent) → Keeps IsConsistent (upsert_agent env a)
  unfolding upsert_agent
  upsert_agent-Keeps a = search consistent_rules

  pub delete_agent-Keeps : (id : String) → Keeps IsConsistent (delete_agent env id)
  unfolding delete_agent
  delete_agent-Keeps id = search consistent_rules

  pub upsert_skill-Keeps : (s : StoredSkill) → Keeps IsConsistent (upsert_skill env s)
  unfolding upsert_skill
  upsert_skill-Keeps s = search consistent_rules

  pub delete_skill-Keeps : (id : String) → Keeps IsConsistent (delete_skill env id)
  unfolding delete_skill
  delete_skill-Keeps id = search consistent_rules

  pub clear_all-Keeps : Keeps IsConsistent (clear_all env)
  unfolding clear_all
  clear_all-Keeps = search consistent_rules depth 16
