-- ===== src/Store/Worker/Opening.antt =====
-- store.worker.ts: requests before the store is open.
use caladon.Prelude.{◌≡◌, ◌≢◌, refl, String, Option, none, List, [], ◌∷◌, ℕ}
use caladon.Store.Requests.{
  StoreRequest, init, persist_turn, hydrate_convo, list_convos, fork, import_chat, delete_convo,
  search_messages, store_vectors, hydrate_vectors, upsert_memory, delete_memory, list_memories,
  upsert_agent, get_agent, list_agents, delete_agent, upsert_skill, get_skill, list_skills,
  delete_skill, clear_all, Double,
}
use caladon.Store.Responses.{StoreResponse, error_response}
use caladon.Store.Action.{Failure, not_open, throw, Action}
use caladon.Store.Search.{search_matches, sanitize_fts_query}
use caladon.Store.Worker.{Worker, Engine}
use caladon.Store.Worker.Handler.{
  handle, serve, reply, request_id, acknowledge, answer, search_task,
}
use caladon.Store.Worker.Dispatch.{on_db_closed}

-- Whether a request needs the connection: INIT makes it, and a search without a token does not ask.
unfoldable pub NeedsStore : Engine → StoreRequest → Type 0
NeedsStore e (init r) = ⊥
NeedsStore e (search_messages r) = sanitize_fts_query (e.code_units r.text) ≢ []
NeedsStore e _ = Unit

abbrev pub refusal : Engine → String → Failure → StoreResponse
refusal e id failure =
    error_response (record { request_id = id; message = e.message failure; code = none })

module _ (e : Engine) (w : Worker) (closed : w.db ≡ none) where
  acknowledge_closed :
      (id : String) (m : Action (Unit {0})) → acknowledge e id m w ≡ (throw not_open, w)
  unfolding acknowledge
  acknowledge_closed id m = rw (on_db_closed e w m closed) refl

  answer_closed :
      {A : Type 0} (m : Action A) (f : A → StoreResponse) → answer e m f w ≡ (throw not_open, w)
  unfolding answer
  answer_closed m f = rw (on_db_closed e w m closed) refl

  search_task_closed :
      (q : List ℕ) (limit : ℕ) (cursor : Option Double)
      → q ≢ []
      → search_task e q limit cursor w ≡ (throw not_open, w)
  unfolding search_task
  search_task_closed [] limit cursor h = absurd (h refl)
  search_task_closed (c ∷ q) limit cursor h =
      on_db_closed e w (search_matches e.fts e.env (c ∷ q) limit cursor) closed

  handle_closed : (req : StoreRequest) → NeedsStore e req → handle e req w ≡ (throw not_open, w)
  unfolding handle NeedsStore
  handle_closed (init r) h = absurd h
  handle_closed (search_messages r) h =
      rw (search_task_closed (sanitize_fts_query (e.code_units r.text)) _ r.cursor h) refl
  handle_closed (persist_turn r) h = acknowledge_closed r.request_id _
  handle_closed (import_chat r) h = acknowledge_closed r.request_id _
  handle_closed (delete_convo r) h = acknowledge_closed r.request_id _
  handle_closed (store_vectors r) h = acknowledge_closed r.request_id _
  handle_closed (upsert_memory r) h = acknowledge_closed r.request_id _
  handle_closed (delete_memory r) h = acknowledge_closed r.request_id _
  handle_closed (upsert_agent r) h = acknowledge_closed r.request_id _
  handle_closed (delete_agent r) h = acknowledge_closed r.request_id _
  handle_closed (upsert_skill r) h = acknowledge_closed r.request_id _
  handle_closed (delete_skill r) h = acknowledge_closed r.request_id _
  handle_closed (clear_all r) h = acknowledge_closed r.request_id _
  handle_closed (hydrate_convo r) h = answer_closed _ _
  handle_closed (list_convos r) h = answer_closed _ _
  handle_closed (fork r) h = answer_closed _ _
  handle_closed (hydrate_vectors r) h = answer_closed _ _
  handle_closed (list_memories r) h = answer_closed _ _
  handle_closed (get_agent r) h = answer_closed _ _
  handle_closed (list_agents r) h = answer_closed _ _
  handle_closed (get_skill r) h = answer_closed _ _
  handle_closed (list_skills r) h = answer_closed _ _

  -- Before the store is open every request that needs it is answered with an ERROR and changes
  -- nothing.
  pub serve-closed :
      (req : StoreRequest)
      → NeedsStore e req
      → serve e req w ≡ (refusal e (request_id req) not_open, w)
  unfolding serve reply
  serve-closed req h = rw (handle_closed req h) refl
