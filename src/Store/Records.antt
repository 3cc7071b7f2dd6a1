-- ===== src/Store/Records.antt =====
-- store.worker.ts, memories, agents and skills, and clearAll.
pub mod Laws
use caladon.Prelude.{
  ℕ, ◌+◌, ◌/◌, String, ◌==◌, Bool, false, not, ◌&&◌, Option, none, some, List, [], max, leb,
  if◌then◌else◌,
}
use caladon.Table.{order_by, find, upsert, delete}
use caladon.Store.Rows.{StoredMemory, StoredAgent, StoredSkill}
use caladon.Store.Tables.{Tables, memory_key, agent_key, skill_key}
use caladon.Store.Action.{Env, Outcome, ok, Action, pure, ◌>>=◌, ◌>>◌, run, query, date_now, tx}

-- Math.max(1, Math.ceil(s.length / 4))
unfoldable pub estimate_tokens : (String → ℕ) → String → ℕ
estimate_tokens text_length s = max 1 ((text_length s + 3) / 4)

abbrev pub merge_memory : StoredMemory → StoredMemory → StoredMemory
merge_memory old new = new

abbrev pub merge_agent : StoredAgent → StoredAgent → StoredAgent
merge_agent old new = record new { created_at = old.created_at }

abbrev pub merge_skill : StoredSkill → StoredSkill → StoredSkill
merge_skill old new = record new { created_at = old.created_at }

unfoldable pub insert_memory : StoredMemory → Tables → Outcome Tables
insert_memory m t = ok (record t { memories = upsert memory_key merge_memory m t.memories })

unfoldable pub remove_memory : String → Tables → Outcome Tables
remove_memory k t = ok (record t { memories = delete memory_key k t.memories })

unfoldable pub insert_agent : StoredAgent → Tables → Outcome Tables
insert_agent a t = ok (record t { agents = upsert agent_key merge_agent a t.agents })

unfoldable pub remove_agent : String → Tables → Outcome Tables
remove_agent k t = ok (record t { agents = delete agent_key k t.agents })

unfoldable pub insert_skill : StoredSkill → Tables → Outcome Tables
insert_skill s t = ok (record t { skills = upsert skill_key merge_skill s t.skills })

unfoldable pub remove_skill : String → Tables → Outcome Tables
remove_skill k t = ok (record t { skills = delete skill_key k t.skills })

-- DELETE FROM t, without a condition; the deletions that cascade are made too.
pub data TableName : Type 0 where
  message_embeddings embeddings chunks files messages conversations memories agents skills :
      TableName

unfoldable pub clear_table : TableName → Tables → Outcome Tables
clear_table message_embeddings t = ok (record t { message_embeddings = [] })
clear_table embeddings t = ok (record t { embeddings = [] })
clear_table chunks t = ok (record t { chunks = []; embeddings = [] })
clear_table files t = ok (record t { files = []; chunks = []; embeddings = [] })
clear_table messages t = ok (record t { messages = [] })
clear_table conversations t = ok (record t { conversations = []; messages = [] })
clear_table memories t = ok (record t { memories = [] })
clear_table agents t = ok (record t { agents = [] })
clear_table skills t = ok (record t { skills = [] })

-- `previousKey && previousKey !== key`
abbrev pub renames : Option String → String → Bool
renames none key = false
renames (some p) key = not (p == "") && not (p == key)

-- The one row of a rename that is dropped first.
abbrev pub old_key : Option String → String
old_key none = ""
old_key (some p) = p

-- ORDER BY updatedAt DESC
abbrev pub memory_desc : StoredMemory → StoredMemory → Bool
memory_desc a b = leb b.updated_at a.updated_at

abbrev pub agent_desc : StoredAgent → StoredAgent → Bool
agent_desc a b = leb b.updated_at a.updated_at

abbrev pub skill_desc : StoredSkill → StoredSkill → Bool
skill_desc a b = leb b.updated_at a.updated_at

-- `text_length` is the length of a text in UTF-16 code units.
module _ (env : Env) (text_length : String → ℕ) where
  unfoldable pub upsert_memory : String → String → Option String → Action (Unit {0})
  unfolding run tx date_now estimate_tokens insert_memory remove_memory
  upsert_memory key value previous = tx env (do
    if renames previous key then run env (remove_memory (old_key previous)) else pure tt
    now ← date_now env
    run env (
        insert_memory (record {
          key = key;
          value = value;
          token_count = estimate_tokens text_length value;
          updated_at = now;
        })))

module _ (env : Env) where
  unfoldable pub delete_memory : String → Action (Unit {0})
  unfolding run remove_memory
  delete_memory key = run env (remove_memory key)

  unfoldable pub list_memories : Action (List StoredMemory)
  unfolding query
  list_memories = query env (λ t. order_by memory_desc t.memories)

  unfoldable pub upsert_agent : StoredAgent → Action (Unit {0})
  unfolding run insert_agent
  upsert_agent a = run env (insert_agent a)

  unfoldable pub get_agent : String → Action (Option StoredAgent)
  unfolding query find
  get_agent id = query env (λ t. find agent_key id t.agents)

  unfoldable pub list_agents : Action (List StoredAgent)
  unfolding query
  list_agents = query env (λ t. order_by agent_desc t.agents)

  unfoldable pub delete_agent : String → Action (Unit {0})
  unfolding run remove_agent
  delete_agent id = run env (remove_agent id)

  unfoldable pub upsert_skill : StoredSkill → Action (Unit {0})
  unfolding run insert_skill
  upsert_skill s = run env (insert_skill s)

  unfoldable pub get_skill : String → Action (Option StoredSkill)
  unfolding query find
  get_skill id = query env (λ t. find skill_key id t.skills)

  unfoldable pub list_skills : Action (List StoredSkill)
  unfolding query
  list_skills = query env (λ t. order_by skill_desc t.skills)

  unfoldable pub delete_skill : String → Action (Unit {0})
  unfolding run remove_skill
  delete_skill id = run env (remove_skill id)

  -- The nine statements of the transaction, and the rebuild of the full-text index after it.
  unfoldable pub clear_all : Action (Unit {0})
  unfolding run tx clear_table
  clear_all = do
    tx env (do
      run env (clear_table message_embeddings)
      run env (clear_table embeddings)
      run env (clear_table chunks)
      run env (clear_table files)
      run env (clear_table messages)
      run env (clear_table conversations)
      run env (clear_table memories)
      run env (clear_table agents)
      run env (clear_table skills))
    run env (λ t. ok t)
