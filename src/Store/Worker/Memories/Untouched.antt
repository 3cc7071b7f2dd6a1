-- ===== src/Store/Worker/Memories/Untouched.antt =====
-- store.worker.ts: the statements that do not change the memories.
use caladon.Prelude.{◌≡◌, subst, arith, String, Bool-cases, inl, inr, List}
use caladon.Table.{has}
use caladon.Store.Rows.{StoredAgent, StoredMemory, StoredSkill}
use caladon.Store.Tables.{Tables, convo_key, has_embedding}
use caladon.Store.Action.{Env}
use caladon.Store.Action.Keeps.{Keeps, Keeps-run, Preserves, Preserves-ok, ok-injective}
use caladon.Store.Turns.{insert_convo, insert_message, remove_convo}
use caladon.Store.Vectors.{delete_vectors, insert_vector}
use caladon.Store.Records
use caladon.Store.Records.{insert_agent, remove_agent, insert_skill, remove_skill}
use caladon.Store.Keeping.{ChatKept}

-- The memories' rows are those given.
abbrev pub MemoriesAre : List StoredMemory → Tables → Type 0
MemoriesAre ms t = t.memories ≡ ms

pub memories_chat_kept : (ms : List StoredMemory) → ChatKept (MemoriesAre ms)
unfolding insert_convo insert_message remove_convo delete_vectors insert_vector
memories_chat_kept ms = record {
  insert_convo_kept = λ c. Preserves-ok (MemoriesAre ms) _ (λ t h. h);
  insert_message_kept = λ r. record {
    at = λ t u h eq. elim (Bool-cases (has convo_key r.conversation_id t.conversations)) [
      | inl found ↦ subst (MemoriesAre ms) (ok-injective (rw found at eq)) h
      | inr missing ↦ absurd (ground arith)
    ];
  };
  remove_convo_kept = λ id. Preserves-ok (MemoriesAre ms) _ (λ t h. h);
  delete_vectors_kept = λ owner. Preserves-ok (MemoriesAre ms) _ (λ t h. h);
  insert_vector_kept = λ r. record {
    at = λ t u h eq. elim (Bool-cases (has_embedding r.message_id r.ord t.message_embeddings)) [
      | inl found ↦ absurd (ground arith)
      | inr missing ↦ subst (MemoriesAre ms) (ok-injective (rw missing at eq)) h
    ];
  };
}

insert_agent_same :
    (ms : List StoredMemory) (a : StoredAgent) → Preserves (MemoriesAre ms) (insert_agent a)
unfolding insert_agent
insert_agent_same ms a = Preserves-ok (MemoriesAre ms) _ (λ t h. h)

pub upsert_agent_same :
    (ms : List StoredMemory) (env : Env) (a : StoredAgent)
    → Keeps (MemoriesAre ms) (Records.upsert_agent env a)
unfolding Records.upsert_agent
upsert_agent_same ms env a = Keeps-run env (insert_agent a) (insert_agent_same ms a)

remove_agent_same :
    (ms : List StoredMemory) (id : String) → Preserves (MemoriesAre ms) (remove_agent id)
unfolding remove_agent
remove_agent_same ms id = Preserves-ok (MemoriesAre ms) _ (λ t h. h)

pub delete_agent_same :
    (ms : List StoredMemory) (env : Env) (id : String)
    → Keeps (MemoriesAre ms) (Records.delete_agent env id)
unfolding Records.delete_agent
delete_agent_same ms env id = Keeps-run env (remove_agent id) (remove_agent_same ms id)

insert_skill_same :
    (ms : List StoredMemory) (s : StoredSkill) → Preserves (MemoriesAre ms) (insert_skill s)
unfolding insert_skill
insert_skill_same ms s = Preserves-ok (MemoriesAre ms) _ (λ t h. h)

pub upsert_skill_same :
    (ms : List StoredMemory) (env : Env) (s : StoredSkill)
    → Keeps (MemoriesAre ms) (Records.upsert_skill env s)
unfolding Records.upsert_skill
upsert_skill_same ms env s = Keeps-run env (insert_skill s) (insert_skill_same ms s)

remove_skill_same :
    (ms : List StoredMemory) (id : String) → Preserves (MemoriesAre ms) (remove_skill id)
unfolding remove_skill
remove_skill_same ms id = Preserves-ok (MemoriesAre ms) _ (λ t h. h)

pub delete_skill_same :
    (ms : List StoredMemory) (env : Env) (id : String)
    → Keeps (MemoriesAre ms) (Records.delete_skill env id)
unfolding Records.delete_skill
delete_skill_same ms env id = Keeps-run env (remove_skill id) (remove_skill_same ms id)
