-- ===== src/Store/Worker/Invariant.antt =====
-- store.worker.ts: the constraints of the schema hold after every sequence of requests, from INIT on.
use caladon.Prelude.{
  if◌then◌else◌, arith, ◌≡◌, sym, subst, ap, ◌∙◌, refl, Bool, false, not, ◌&&◌, ◌==◌, Bool-cases,
  none, ℕ, String, true, Option, Option-cases, inl, inr, some, List, [], ◌∷◌,
}
use caladon.Store.Requests.{
  StoreRequest, init, persist_turn, hydrate_convo, list_convos, fork, import_chat, delete_convo,
  search_messages, store_vectors, hydrate_vectors, upsert_memory, delete_memory, list_memories,
  upsert_agent, get_agent, list_agents, delete_agent, upsert_skill, get_skill, list_skills,
  delete_skill, clear_all, Double,
}
use caladon.Store.Responses.{StoreResponse}
use caladon.Store.Tables.{Tables, IsConsistent}
use caladon.Store.Action.{World, Outcome, ok, throw, Action}
use caladon.Store.Action.Keeps.{Keeps}
use caladon.Store.Import.{or_else}
use caladon.Store.Search.{sanitize_fts_query}
use caladon.Store.Keeping.Reads.{
  search_matches_kept, hydrate_convo_kept, list_convos_kept, hydrate_vectors_kept,
  list_memories_kept, get_agent_kept, list_agents_kept, get_skill_kept, list_skills_kept,
}
use caladon.Store.Consistency.{
  persist_turn-Keeps, delete_convo-Keeps, fork_conversation-Keeps, store_vectors-Keeps,
  upsert_memory-Keeps, delete_memory-Keeps, upsert_agent-Keeps, delete_agent-Keeps,
  upsert_skill-Keeps, delete_skill-Keeps, clear_all-Keeps, import_chat_export-Keeps,
}
use caladon.Store.Worker.{
  File, left_in, tables_in, file_after, file_of, Worker, Engine, done, proceed, init_store, on_db,
  Connection,
}
use caladon.Store.Worker.Handler.{handle, serve, drain, search_task, acknowledge, answer}
use caladon.Store.Worker.Dispatch.{init_store_closed, init_store_open, on_db_closed, on_db_open}
use caladon.Store.Worker.Triples.{Ends}
use caladon.Store.Worker.Soundness.{
  is_file, is_spoiled, IsStored, CompleteStored, left_in-IsStored, IsSound, CompleteConsistent,
  IsOpening, Incomplete, opening-IsSound, open_store_file-Meets,
}

Ends-IsSound : (r : Outcome (Unit {0})) (w : Worker) → Ends IsSound IsOpening r w → IsSound w
Ends-IsSound (ok a) w h = h
Ends-IsSound (throw e) w h = opening-IsSound w h

proceed-IsSound :
    {A : Type 0} (r : Outcome A) (f : A → StoreResponse) (w : Worker)
    → IsSound w
    → IsSound (proceed r (λ a. done (f a)) w).1
proceed-IsSound (ok a) f w h = h
proceed-IsSound (throw e) f w h = h

CompleteConsistent-some :
    (o : Option Connection) (c : Connection) (t : Tables)
    → o ≡ some c
    → (c.complete ≡ true → IsConsistent t)
    → CompleteConsistent o t
CompleteConsistent-some o c t eq h = subst (λ p. CompleteConsistent p t) (sym eq) h

left_in-consistent :
    (e : Engine) (file : Option String) (complete : Bool) (v : World) (files : String → File)
    (g : String)
    → (complete ≡ true → IsConsistent v.tables)
    → ((not complete && is_file file g) ≡ false → IsConsistent (tables_in (files g)))
    → (not complete && is_file file g) ≡ false
    → IsConsistent
        (tables_in (left_in file (file_after e complete (file_of e file files) v) files g))
left_in-consistent e none complete v files g full old k = old k
left_in-consistent e (some f) true v files g full old k = elim (Bool-cases (g == f)) [
  | inl this ↦ rw this (full refl)
  | inr other ↦ rw other (old refl)
]
left_in-consistent e (some f) false v files g full old k = rw k (old k)

complete_file :
    (e : Engine) (complete : Bool)
    → complete ≡ true
    → (before : File) (file : Option String) (v : World) (files : String → File)
    → IsStored file (left_in file (file_after e complete before v) files) v.tables
complete_file e true h before file v files = left_in-IsStored file v.tables files
complete_file e false h before file v files = absurd (ground (arith, h))

module _ (e : Engine) where
  init_store-IsSound : (key : String) (w : Worker) → IsSound w → IsSound (init_store e key w).1
  init_store-IsSound key w h = elim (Option-cases w.db) [
    | inl closed ↦ rw (init_store_closed e w key closed) (
        Ends-IsSound _ _ (
          (open_store_file-Meets e key).at w (record {
            files = λ f. h.files f (rw closed refl);
            db = subst Incomplete (sym closed) tt;
          })))
    | inr (c, eq) ↦ rw (init_store_open e w key c eq) h
  ]

  on_db-IsSound :
      {A : Type 0} (m : Action A) (w : Worker)
      → Keeps IsConsistent m
      → IsSound w
      → IsSound (on_db e m w).1
  on_db-IsSound m w km h = elim (Option-cases w.db) [
    | inl closed ↦ rw (on_db_closed e w m closed) h
    | inr (c, eq) ↦ rw (on_db_open e w m c eq) (record {
      files = λ g k.
          left_in-consistent e c.file c.complete _ w.files g
            (λ full.
              rw full
                (km.at w.world (subst (λ o. CompleteConsistent o w.world.tables) eq h.db full)))
            (λ j. h.files g (ap (λ o. is_spoiled o g) eq ∙ j))
            (ap (λ o. is_spoiled o g) (sym eq) ∙ k);
      db =
          CompleteConsistent-some w.db c _ eq (λ t.
            rw t (km.at w.world (subst (λ o. CompleteConsistent o w.world.tables) eq h.db t)));
      stored =
          subst
            (λ o.
              CompleteStored o
                (left_in c.file
                  (file_after e c.complete (file_of e c.file w.files)
                    ((if c.complete then m else e.on_incomplete m) w.world).1)
                  w.files)
                ((if c.complete then m else e.on_incomplete m) w.world).1.tables)
            (sym eq)
            (λ full.
              complete_file e c.complete full (file_of e c.file w.files) c.file
                ((if c.complete then m else e.on_incomplete m) w.world).1 w.files);
    })
  ]

  acknowledge-IsSound :
      (id : String) (m : Action (Unit {0})) (w : Worker)
      → Keeps IsConsistent m
      → IsSound w
      → IsSound (acknowledge e id m w).1
  unfolding acknowledge
  acknowledge-IsSound id m w km h = proceed-IsSound _ _ _ (on_db-IsSound m w km h)

  answer-IsSound :
      {A : Type 0} (m : Action A) (f : A → StoreResponse) (w : Worker)
      → Keeps IsConsistent m
      → IsSound w
      → IsSound (answer e m f w).1
  unfolding answer
  answer-IsSound m f w km h = proceed-IsSound _ f _ (on_db-IsSound m w km h)

  search_task-IsSound :
      (q : List ℕ) (limit : ℕ) (cursor : Option Double) (w : Worker)
      → IsSound w
      → IsSound (search_task e q limit cursor w).1
  unfolding search_task
  search_task-IsSound [] limit cursor w h = h
  search_task-IsSound (c ∷ q) limit cursor w h =
      on_db-IsSound _ w (search_matches_kept e.env e.fts (c ∷ q) limit cursor) h

  handle-IsSound : (req : StoreRequest) (w : Worker) → IsSound w → IsSound (handle e req w).1
  unfolding handle
  handle-IsSound (init r) w h = proceed-IsSound _ _ _ (init_store-IsSound r.hex_key w h)
  handle-IsSound (persist_turn r) w h =
      acknowledge-IsSound _ _ w (persist_turn-Keeps e.env r.convo r.user_msg r.assistant_msg) h
  handle-IsSound (hydrate_convo r) w h =
      answer-IsSound _ _ w (hydrate_convo_kept e.env r.conversation_id) h
  handle-IsSound (list_convos r) w h =
      answer-IsSound _ _ w (list_convos_kept e.env (or_else r.limit 50) r.cursor) h
  handle-IsSound (fork r) w h =
      answer-IsSound _ _ w (fork_conversation-Keeps e.env r.conversation_id r.from_message_id) h
  handle-IsSound (import_chat r) w h =
      acknowledge-IsSound _ _ w (import_chat_export-Keeps e.env e.dynamic r.json) h
  handle-IsSound (delete_convo r) w h =
      acknowledge-IsSound _ _ w (delete_convo-Keeps e.env r.conversation_id) h
  handle-IsSound (search_messages r) w h = proceed-IsSound _ _ _ (
      search_task-IsSound (sanitize_fts_query (e.code_units r.text)) (or_else r.limit 20) r.cursor w
        h)
  handle-IsSound (store_vectors r) w h =
      acknowledge-IsSound _ _ w (store_vectors-Keeps e.env r.message_id r.chunks) h
  handle-IsSound (hydrate_vectors r) w h = answer-IsSound _ _ w (hydrate_vectors_kept e.env) h
  handle-IsSound (upsert_memory r) w h =
      acknowledge-IsSound _ _ w (upsert_memory-Keeps e.env _ r.key r.value r.previous_key) h
  handle-IsSound (delete_memory r) w h =
      acknowledge-IsSound _ _ w (delete_memory-Keeps e.env r.key) h
  handle-IsSound (list_memories r) w h = answer-IsSound _ _ w (list_memories_kept e.env) h
  handle-IsSound (upsert_agent r) w h =
      acknowledge-IsSound _ _ w (upsert_agent-Keeps e.env r.agent) h
  handle-IsSound (get_agent r) w h = answer-IsSound _ _ w (get_agent_kept e.env r.agent_id) h
  handle-IsSound (list_agents r) w h = answer-IsSound _ _ w (list_agents_kept e.env) h
  handle-IsSound (delete_agent r) w h =
      acknowledge-IsSound _ _ w (delete_agent-Keeps e.env r.agent_id) h
  handle-IsSound (upsert_skill r) w h =
      acknowledge-IsSound _ _ w (upsert_skill-Keeps e.env r.skill) h
  handle-IsSound (get_skill r) w h = answer-IsSound _ _ w (get_skill_kept e.env r.skill_id) h
  handle-IsSound (list_skills r) w h = answer-IsSound _ _ w (list_skills_kept e.env) h
  handle-IsSound (delete_skill r) w h =
      acknowledge-IsSound _ _ w (delete_skill-Keeps e.env r.skill_id) h
  handle-IsSound (clear_all r) w h = acknowledge-IsSound _ _ w (clear_all-Keeps e.env) h

  -- The worker keeps its invariant over every queue of requests, of any kind and in any order, and
  -- whatever fails, INIT included: the files of the device, to which the operations write, hold
  -- consistent databases, but for the file of a connection of which init failed halfway; and if the
  -- init of the connection has come to its end, the connection holds a consistent database too, and
  -- its file, if it has one, what the connection holds. Needed: it holds before the first request.
  pub drain-IsSound :
      (reqs : List StoreRequest) (w : Worker) → IsSound w → IsSound (drain e reqs w).1
  unfolding drain serve
  drain-IsSound [] w h = h
  drain-IsSound (req ∷ reqs) w h = drain-IsSound reqs (serve e req w).1 (handle-IsSound req w h)
