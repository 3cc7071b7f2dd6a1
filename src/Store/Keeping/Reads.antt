-- ===== src/Store/Keeping/Reads.antt =====
-- store.worker.ts: the operations that only read keep whatever holds of the tables.
use caladon.Prelude.{ℕ, String, Option, List}
use caladon.Store.Requests.{Double}
use caladon.Store.Tables.{Tables}
use caladon.Store.Action.{Env}
use caladon.Store.Action.Keeps.{Keeps, keeps_rules}
use caladon.Store.Search.{Fts, search_matches}
use caladon.Store.Turns
use caladon.Store.Vectors
use caladon.Store.Records

module _ {P : Tables → Type 0} (env : Env) where
  pub hydrate_convo_kept : (id : String) → Keeps P (Turns.hydrate_convo env id)
  unfolding Turns.hydrate_convo
  hydrate_convo_kept id = search keeps_rules

  pub list_convos_kept :
      (limit : ℕ) (cursor : Option ℕ) → Keeps P (Turns.list_convos env limit cursor)
  unfolding Turns.list_convos
  list_convos_kept limit cursor = search keeps_rules

  pub hydrate_vectors_kept : Keeps P (Vectors.hydrate_vectors env)
  unfolding Vectors.hydrate_vectors
  hydrate_vectors_kept = search keeps_rules

  pub list_memories_kept : Keeps P (Records.list_memories env)
  unfolding Records.list_memories
  list_memories_kept = search keeps_rules

  pub get_agent_kept : (id : String) → Keeps P (Records.get_agent env id)
  unfolding Records.get_agent
  get_agent_kept id = search keeps_rules

  pub list_agents_kept : Keeps P (Records.list_agents env)
  unfolding Records.list_agents
  list_agents_kept = search keeps_rules

  pub get_skill_kept : (id : String) → Keeps P (Records.get_skill env id)
  unfolding Records.get_skill
  get_skill_kept id = search keeps_rules

  pub list_skills_kept : Keeps P (Records.list_skills env)
  unfolding Records.list_skills
  list_skills_kept = search keeps_rules

  pub search_matches_kept :
      (fts : Fts) (q : List ℕ) (limit : ℕ) (cursor : Option Double)
      → Keeps P (search_matches fts env q limit cursor)
  unfolding search_matches
  search_matches_kept fts q limit cursor = search keeps_rules
