-- ===== src/Store/Worker/Memories.antt =====
-- store.worker.ts: the memories as a map from keys to values, which the requests change one at a time.
pub mod Spec
pub mod Untouched
use caladon.Prelude.{
  ◌≡◌, refl, sym, ap, subst, ◌∙◌, ℕ, String, ◌==◌, true, Option, none, some, List, [], ◌∷◌, length,
  Bool, if◌then◌else◌,
}
use caladon.Table.{find}
use caladon.Table.Laws.{find-delete}
use caladon.Store.Tables.{memory_key}
use caladon.Store.Requests.{
  StoreRequest, init, persist_turn, hydrate_convo, list_convos, fork, import_chat, delete_convo,
  search_messages, store_vectors, hydrate_vectors, upsert_memory, delete_memory, list_memories,
  upsert_agent, get_agent, list_agents, delete_agent, upsert_skill, get_skill, list_skills,
  delete_skill, clear_all, Double, UpsertMemoryRequest, DeleteMemoryRequest, ClearAllRequest,
}
use caladon.Store.Responses.{StoreResponse}
use caladon.Store.Action.{World, Outcome, ok, throw, Action}
use caladon.Store.Action.Laws.{Quiet}
use caladon.Store.Action.Keeps.{Keeps}
use caladon.Store.Records
use caladon.Store.Records.Laws.{find-upsert_memory, clear_all_lem, is_previous}
use caladon.Store.Keeping.{
  persist_turn_kept, delete_convo_kept, fork_conversation_kept, store_vectors_kept,
  import_chat_export_kept,
}
use caladon.Store.Worker.{Worker, Engine, Connection, done, proceed, on_db, committed}
use caladon.Store.Keeping.Reads.{
  search_matches_kept, hydrate_convo_kept, list_convos_kept, hydrate_vectors_kept,
  list_memories_kept, get_agent_kept, list_agents_kept, get_skill_kept, list_skills_kept,
}
use caladon.Store.Import.{or_else}
use caladon.Store.Search.{sanitize_fts_query}
use caladon.Store.Worker.Handler.{search_task, handle, serve, drain, acknowledge, answer}
use Spec.{Notes, note_step, note_run, note_run_ext, value_of, notes_of, value_of-if}
use Untouched.{
  MemoriesAre, memories_chat_kept, upsert_agent_same, delete_agent_same, upsert_skill_same,
  delete_skill_same,
}
use caladon.Store.Worker.Dispatch.{init_store_open, on_db_open}

-- The worker has a connection of which init has come to its end.
abbrev pub IsReady : Worker → Type 0
IsReady w = (c : Connection) × (w.db ≡ some c) × (c.complete ≡ true)

proceed_world :
    {A : Type 0} (r : Outcome A) (f : A → StoreResponse) (w : Worker)
    → (proceed r (λ a. done (f a)) w).1 ≡ w
proceed_world (ok a) f w = refl
proceed_world (throw e) f w = refl

module _ (e : Engine) where
  on_db_ready :
      {A : Type 0} (m : Action A) (w : Worker)
      → (h : IsReady w) → on_db e m w ≡ ((m w.world).0, committed e h.0 (m w.world).1 w)
  on_db_ready m w (c, eq, full) =
      on_db_open e w m c eq
      ∙ ap
          (λ (b : Bool). (
            ((if b then m else e.on_incomplete m) w.world).0,
            committed e c ((if b then m else e.on_incomplete m) w.world).1 w,
          ))
          full

  acknowledge_world :
      (id : String) (m : Action (Unit {0})) (w : Worker)
      → (h : IsReady w) → (acknowledge e id m w).1 ≡ committed e h.0 (m w.world).1 w
  unfolding acknowledge
  acknowledge_world id m w h = proceed_world _ _ _ ∙ ap (λ x. x.1) (on_db_ready m w h)

  answer_world :
      {A : Type 0} (m : Action A) (f : A → StoreResponse) (w : Worker)
      → (h : IsReady w) → (answer e m f w).1 ≡ committed e h.0 (m w.world).1 w
  unfolding answer
  answer_world m f w h = proceed_world _ f _ ∙ ap (λ x. x.1) (on_db_ready m w h)

-- A request took the worker from `w` to `v` as the abstract memories say.
record Refines (req : StoreRequest) (w v : Worker) : Type 0 where
  ready : IsReady v
  notes : (k : String) → notes_of v.world.tables k ≡ note_step req (notes_of w.world.tables) k

abbrev IsSilent : StoreRequest → Type 0
IsSilent req = (notes : Notes) (k : String) → notes k ≡ note_step req notes k

same_memories :
    (req : StoreRequest) (w v : Worker) (u : World)
    → v.db ≡ w.db
    → v.world ≡ u
    → IsSilent req
    → IsReady w
    → MemoriesAre w.world.tables.memories u.tables
    → Refines req w v
same_memories req w v u db world silent h same = record {
  ready = (h.0, db ∙ h.1, h.2);
  notes = λ k.
      ap (λ (x : World). notes_of x.tables k) world
      ∙ (ap (λ ms. value_of (find memory_key k ms)) same ∙ silent (notes_of w.world.tables) k);
}

module _ (e : Engine) where
  acknowledge_same :
      (req : StoreRequest) (id : String) (m : Action (Unit {0})) (w : Worker)
      → IsSilent req
      → IsReady w
      → Keeps (MemoriesAre w.world.tables.memories) m
      → Refines req w (acknowledge e id m w).1
  acknowledge_same req id m w silent h km =
      same_memories req w _ _ (ap (λ (x : Worker). x.db) (acknowledge_world e id m w h))
        (ap (λ (x : Worker). x.world) (acknowledge_world e id m w h)) silent h (km.at w.world refl)

  answer_same :
      {A : Type 0} (req : StoreRequest) (m : Action A) (f : A → StoreResponse) (w : Worker)
      → IsSilent req
      → IsReady w
      → Keeps (MemoriesAre w.world.tables.memories) m
      → Refines req w (answer e m f w).1
  answer_same req m f w silent h km =
      same_memories req w _ _ (ap (λ (x : Worker). x.db) (answer_world e m f w h))
        (ap (λ (x : Worker). x.world) (answer_world e m f w h)) silent h (km.at w.world refl)

  search_same :
      (q : List ℕ) (limit : ℕ) (cursor : Option Double) (w : Worker)
      → IsReady w
      → (u : World) × ((search_task e q limit cursor w).1.db ≡ w.db)
        × ((search_task e q limit cursor w).1.world ≡ u)
        × MemoriesAre w.world.tables.memories u.tables
  unfolding search_task
  search_same [] limit cursor w h = (w.world, refl, refl, refl)
  search_same (c ∷ q) limit cursor w h = (
    _,
    ap (λ x. x.1.db) (on_db_ready e _ w h),
    ap (λ x. x.1.world) (on_db_ready e _ w h),
    (search_matches_kept {P = MemoriesAre w.world.tables.memories} e.env e.fts (c ∷ q) limit
          cursor).at
        w.world refl,
  )

  upsert_memory-Refines :
      (r : UpsertMemoryRequest) (w : Worker)
      → Quiet e.env
      → IsReady w
      → Refines (upsert_memory r) w (handle e (upsert_memory r) w).1
  unfolding handle note_step
  upsert_memory-Refines r w quiet h =
      let text_length : String → ℕ = λ s. length (e.code_units s) in
      subst (Refines (upsert_memory r) w) (sym (acknowledge_world e r.request_id _ w h)) (record {
        ready = h;
        notes = λ k.
            ap value_of
              (find-upsert_memory e.env text_length r.key r.value r.previous_key k w.world quiet).2
            ∙ (value_of-if (r.key == k) _ _
                ∙ rw
                    (value_of-if (is_previous r.previous_key k) none
                      (find memory_key k w.world.tables.memories))
                    refl);
      })

  delete_memory-Refines :
      (r : DeleteMemoryRequest) (w : Worker)
      → Quiet e.env
      → IsReady w
      → Refines (delete_memory r) w (handle e (delete_memory r) w).1
  unfolding handle note_step Records.delete_memory
  delete_memory-Refines r w quiet h =
      subst (Refines (delete_memory r) w) (sym (acknowledge_world e r.request_id _ w h)) (record {
        ready = h;
        notes = λ k. simp quiet (
            rw (find-delete memory_key k r.key w.world.tables.memories)
              (value_of-if (r.key == k) none (find memory_key k w.world.tables.memories)));
      })

  clear_all-Refines :
      (r : ClearAllRequest) (w : Worker)
      → Quiet e.env
      → IsReady w
      → Refines (clear_all r) w (handle e (clear_all r) w).1
  unfolding handle note_step find
  clear_all-Refines r w quiet h =
      subst (Refines (clear_all r) w) (sym (acknowledge_world e r.request_id _ w h)) (record {
        ready = h;
        notes = λ k. ap (λ t. notes_of t k) (clear_all_lem e.env w.world quiet).1;
      })

  handle-Refines :
      (req : StoreRequest) (w : Worker) → Quiet e.env → IsReady w → Refines req w (handle e req w).1
  unfolding handle note_step
  handle-Refines (upsert_memory r) w quiet h = upsert_memory-Refines r w quiet h
  handle-Refines (delete_memory r) w quiet h = delete_memory-Refines r w quiet h
  handle-Refines (clear_all r) w quiet h = clear_all-Refines r w quiet h
  handle-Refines (init r) w quiet h =
      same_memories (init r) w _ w.world
        (ap (λ (x : Worker). x.db) (proceed_world _ _ _)
          ∙ ap (λ x. x.1.db) (init_store_open e w r.hex_key h.0 h.1))
        (ap (λ (x : Worker). x.world) (proceed_world _ _ _)
          ∙ ap (λ x. x.1.world) (init_store_open e w r.hex_key h.0 h.1))
        (λ n k. refl) h refl
  handle-Refines (search_messages r) w quiet h =
      let (u, db, world, same) =
        search_same (sanitize_fts_query (e.code_units r.text)) (or_else r.limit 20) r.cursor w h in
      same_memories (search_messages r) w _ u (ap (λ (x : Worker). x.db) (proceed_world _ _ _) ∙ db)
        (ap (λ (x : Worker). x.world) (proceed_world _ _ _) ∙ world) (λ n k. refl) h same
  handle-Refines (persist_turn r) w quiet h =
      acknowledge_same _ _ _ w (λ n k. refl) h
        (persist_turn_kept (memories_chat_kept _) e.env r.convo r.user_msg r.assistant_msg)
  handle-Refines (import_chat r) w quiet h =
      acknowledge_same _ _ _ w (λ n k. refl) h
        (import_chat_export_kept (memories_chat_kept _) e.env e.dynamic r.json)
  handle-Refines (delete_convo r) w quiet h =
      acknowledge_same _ _ _ w (λ n k. refl) h
        (delete_convo_kept (memories_chat_kept _) e.env r.conversation_id)
  handle-Refines (store_vectors r) w quiet h =
      acknowledge_same _ _ _ w (λ n k. refl) h
        (store_vectors_kept (memories_chat_kept _) e.env r.message_id r.chunks)
  handle-Refines (fork r) w quiet h =
      answer_same _ _ _ w (λ n k. refl) h
        (fork_conversation_kept (memories_chat_kept _) e.env r.conversation_id r.from_message_id)
  handle-Refines (upsert_agent r) w quiet h =
      acknowledge_same _ _ _ w (λ n k. refl) h (upsert_agent_same _ e.env r.agent)
  handle-Refines (delete_agent r) w quiet h =
      acknowledge_same _ _ _ w (λ n k. refl) h (delete_agent_same _ e.env r.agent_id)
  handle-Refines (upsert_skill r) w quiet h =
      acknowledge_same _ _ _ w (λ n k. refl) h (upsert_skill_same _ e.env r.skill)
  handle-Refines (delete_skill r) w quiet h =
      acknowledge_same _ _ _ w (λ n k. refl) h (delete_skill_same _ e.env r.skill_id)
  handle-Refines (hydrate_convo r) w quiet h =
      answer_same _ _ _ w (λ n k. refl) h (hydrate_convo_kept e.env r.conversation_id)
  handle-Refines (list_convos r) w quiet h =
      answer_same _ _ _ w (λ n k. refl) h (list_convos_kept e.env (or_else r.limit 50) r.cursor)
  handle-Refines (hydrate_vectors r) w quiet h =
      answer_same _ _ _ w (λ n k. refl) h (hydrate_vectors_kept e.env)
  handle-Refines (list_memories r) w quiet h =
      answer_same _ _ _ w (λ n k. refl) h (list_memories_kept e.env)
  handle-Refines (get_agent r) w quiet h =
      answer_same _ _ _ w (λ n k. refl) h (get_agent_kept e.env r.agent_id)
  handle-Refines (list_agents r) w quiet h =
      answer_same _ _ _ w (λ n k. refl) h (list_agents_kept e.env)
  handle-Refines (get_skill r) w quiet h =
      answer_same _ _ _ w (λ n k. refl) h (get_skill_kept e.env r.skill_id)
  handle-Refines (list_skills r) w quiet h =
      answer_same _ _ _ w (λ n k. refl) h (list_skills_kept e.env)

  -- The worker's memories behave as a map from keys to values: after any queue of requests, each
  -- key has the value that the requests give it one after the other, the others leave it alone, and
  -- the connection stays ready. Needed: the worker has a connection of which init has come to its
  -- end, and no statement fails.
  pub drain-Refines :
      (reqs : List StoreRequest) (w : Worker)
      → Quiet e.env
      → IsReady w
      → IsReady (drain e reqs w).1
        × ((k : String)
            → notes_of (drain e reqs w).1.world.tables k
              ≡ note_run reqs (notes_of w.world.tables) k)
  unfolding drain serve note_run
  drain-Refines [] w quiet h = (h, λ k. refl)
  drain-Refines (req ∷ reqs) w quiet h =
      let step = handle-Refines req w quiet h in
      let rest = drain-Refines reqs (serve e req w).1 quiet step.ready in
      (rest.0, λ k. rest.1 k ∙ note_run_ext reqs _ _ step.notes k)
