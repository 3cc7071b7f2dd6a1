-- ===== src/Store/Worker/Answers.antt =====
-- store.worker.ts: every request is answered once, with its own id, in the order of arrival.
use caladon.Prelude.{String, List, [], ◌∷◌, ◌≡◌, refl, map, ap₂, none}
use caladon.Store.Requests.{
  StoreRequest, init, persist_turn, hydrate_convo, list_convos, fork, import_chat, delete_convo,
  search_messages, store_vectors, hydrate_vectors, upsert_memory, delete_memory, list_memories,
  upsert_agent, get_agent, list_agents, delete_agent, upsert_skill, get_skill, list_skills,
  delete_skill, clear_all,
}
use caladon.Store.Responses.{StoreResponse, response_id}
use caladon.Store.Action.{Outcome, ok, throw, Action}
use caladon.Store.Import.{or_else}
use caladon.Store.Search.{sanitize_fts_query}
use caladon.Store.Worker.{Worker, Engine, done, proceed, init_store, on_db}
use caladon.Store.Worker.Handler.{
  request_id, handle, reply, serve, drain, search_task, acknowledge, answer, page_response, ok_with,
}

module _ (e : Engine) where
  proceed_answers :
      {A : Type 0} (id : String) (r : Outcome A) (f : A → StoreResponse) (w : Worker)
      → ((a : A) → response_id (f a) ≡ id)
      → response_id (reply e id (proceed r (λ a. done (f a)) w).0) ≡ id
  unfolding reply
  proceed_answers id (ok a) f w h = h a
  proceed_answers id (throw failure) f w h = refl

  answer_answers :
      {A : Type 0} (id : String) (m : Action A) (f : A → StoreResponse) (w : Worker)
      → ((a : A) → response_id (f a) ≡ id)
      → response_id (reply e id (answer e m f w).0) ≡ id
  unfolding answer
  answer_answers id m f w h = proceed_answers id (on_db e m w).0 f (on_db e m w).1 h

  acknowledge_answers :
      (id : String) (m : Action (Unit {0})) (w : Worker)
      → response_id (reply e id (acknowledge e id m w).0) ≡ id
  unfolding acknowledge
  acknowledge_answers id m w =
      proceed_answers id (on_db e m w).0 (λ _. ok_with id none) (on_db e m w).1 (λ a. refl)

  -- A request is answered with its own id, whether it succeeds or throws, in every state of the
  -- worker.
  pub response_id-serve :
      (req : StoreRequest) (w : Worker) → response_id (serve e req w).0 ≡ request_id req
  unfolding serve handle
  response_id-serve (init r) w =
      let (res, v) = init_store e r.hex_key w in
      proceed_answers r.request_id res (λ _. ok_with r.request_id none) v (λ a. refl)
  response_id-serve (search_messages r) w =
      let (res, v) =
        search_task e (sanitize_fts_query (e.code_units r.text)) (or_else r.limit 20) r.cursor w in
      proceed_answers r.request_id res (page_response r.request_id) v (λ a. refl)
  response_id-serve (persist_turn r) w = acknowledge_answers r.request_id _ w
  response_id-serve (import_chat r) w = acknowledge_answers r.request_id _ w
  response_id-serve (delete_convo r) w = acknowledge_answers r.request_id _ w
  response_id-serve (store_vectors r) w = acknowledge_answers r.request_id _ w
  response_id-serve (upsert_memory r) w = acknowledge_answers r.request_id _ w
  response_id-serve (delete_memory r) w = acknowledge_answers r.request_id _ w
  response_id-serve (upsert_agent r) w = acknowledge_answers r.request_id _ w
  response_id-serve (delete_agent r) w = acknowledge_answers r.request_id _ w
  response_id-serve (upsert_skill r) w = acknowledge_answers r.request_id _ w
  response_id-serve (delete_skill r) w = acknowledge_answers r.request_id _ w
  response_id-serve (clear_all r) w = acknowledge_answers r.request_id _ w
  response_id-serve (hydrate_convo r) w = answer_answers r.request_id _ _ w (λ a. refl)
  response_id-serve (list_convos r) w = answer_answers r.request_id _ _ w (λ a. refl)
  response_id-serve (fork r) w = answer_answers r.request_id _ _ w (λ a. refl)
  response_id-serve (hydrate_vectors r) w = answer_answers r.request_id _ _ w (λ a. refl)
  response_id-serve (list_memories r) w = answer_answers r.request_id _ _ w (λ a. refl)
  response_id-serve (get_agent r) w = answer_answers r.request_id _ _ w (λ a. refl)
  response_id-serve (list_agents r) w = answer_answers r.request_id _ _ w (λ a. refl)
  response_id-serve (get_skill r) w = answer_answers r.request_id _ _ w (λ a. refl)
  response_id-serve (list_skills r) w = answer_answers r.request_id _ _ w (λ a. refl)

  -- The worker answers every request of its queue exactly once: the ids of the responses that it
  -- posts are those of the requests, in the order of their arrival, whatever fails.
  pub drain-answers :
      (reqs : List StoreRequest) (w : Worker)
      → map response_id (drain e reqs w).0 ≡ map request_id reqs
  unfolding drain
  drain-answers [] w = refl
  drain-answers (req ∷ reqs) w =
      ap₂ ◌∷◌ (response_id-serve req w) (drain-answers reqs (serve e req w).1)
