-- ===== src/Store/Worker/Handler.antt =====
-- store.worker.ts, handle and onmessage: each request is dispatched to its operation, and every
-- request is answered, one after the other.
use caladon.Prelude.{ℕ, String, Option, none, some, List, [], ◌∷◌, length}
use caladon.Store.Requests.{
  StoreRequest, init, persist_turn, hydrate_convo, list_convos, fork, import_chat, delete_convo,
  search_messages, store_vectors, hydrate_vectors, upsert_memory, delete_memory, list_memories,
  upsert_agent, get_agent, list_agents, delete_agent, upsert_skill, get_skill, list_skills,
  delete_skill, clear_all,
}
use caladon.Store.Responses.{
  StoreResponse, ok_response, error_response, hydrate_response, list_convos_response,
  search_response, vectors_response, memories_response, agents_response, agent_response,
  skills_response, skill_response,
}
use caladon.Store.Turns
use caladon.Store.Fork.{fork_conversation}
use caladon.Store.Vectors
use caladon.Store.Records
use caladon.Store.Import.{import_chat_export, or_else}
use caladon.Store.Search.{SearchPage, sanitize_fts_query, search_matches}
use caladon.Store.Action.{Outcome, ok, throw, Action}
use caladon.Store.Worker.{Worker, Engine, Task, done, ◌>>=◌, ◌>>◌, init_store, on_db}

-- req.requestId
abbrev pub request_id : StoreRequest → String
request_id (init r) = r.request_id
request_id (persist_turn r) = r.request_id
request_id (hydrate_convo r) = r.request_id
request_id (list_convos r) = r.request_id
request_id (fork r) = r.request_id
request_id (import_chat r) = r.request_id
request_id (delete_convo r) = r.request_id
request_id (search_messages r) = r.request_id
request_id (store_vectors r) = r.request_id
request_id (hydrate_vectors r) = r.request_id
request_id (upsert_memory r) = r.request_id
request_id (delete_memory r) = r.request_id
request_id (list_memories r) = r.request_id
request_id (upsert_agent r) = r.request_id
request_id (get_agent r) = r.request_id
request_id (list_agents r) = r.request_id
request_id (delete_agent r) = r.request_id
request_id (upsert_skill r) = r.request_id
request_id (get_skill r) = r.request_id
request_id (list_skills r) = r.request_id
request_id (delete_skill r) = r.request_id
request_id (clear_all r) = r.request_id

abbrev pub ok_with : String → Option String → StoreResponse
ok_with id result = ok_response (record { request_id = id; result = result })

abbrev pub page_response : String → SearchPage → StoreResponse
page_response id page =
    search_response (record { request_id = id; hits = page.hits; next_cursor = page.next_cursor })

module _ (e : Engine) where
  -- search(queryStr, limit, cursor): an empty query is answered without a statement, so without a
  -- connection too.
  unfoldable pub search_task : List ℕ → ℕ → Option ℕ → Task SearchPage
  unfolding on_db search_matches
  search_task q limit cursor = elim q [
    | [] ↦ done (record { hits = []; next_cursor = none })
    | (c ∷ cs) ↦ on_db e (search_matches e.fts e.env (c ∷ cs) limit cursor)
  ]

  -- An operation that is answered with OK.
  unfoldable pub acknowledge : String → Action (Unit {0}) → Task StoreResponse
  unfolding on_db
  acknowledge id m = do on_db e m; done (ok_with id none)

  -- An operation that is answered with what it returns.
  unfoldable pub answer : {A : Type 0} → Action A → (A → StoreResponse) → Task StoreResponse
  unfolding on_db
  answer m f = do a ← on_db e m; done (f a)

  unfoldable pub handle : StoreRequest → Task StoreResponse
  unfolding init_store search_task acknowledge answer sanitize_fts_query
  handle (init r) = do init_store e r.hex_key; done (ok_with r.request_id none)
  handle (persist_turn r) =
      acknowledge r.request_id (Turns.persist_turn e.env r.convo r.user_msg r.assistant_msg)
  handle (hydrate_convo r) = answer (Turns.hydrate_convo e.env r.conversation_id) (λ h.
      hydrate_response (record {
        request_id = r.request_id;
        conversation = h.conversation;
        messages = h.messages;
      }))
  handle (list_convos r) = answer (Turns.list_convos e.env (or_else r.limit 50) r.cursor) (λ page.
      list_convos_response (record {
        request_id = r.request_id;
        conversations = page.conversations;
        next_cursor = page.next_cursor;
      }))
  handle (fork r) =
      answer (fork_conversation e.env r.conversation_id r.from_message_id)
        (λ id. ok_with r.request_id (some id))
  handle (import_chat r) = acknowledge r.request_id (import_chat_export e.dynamic e.env r.json)
  handle (delete_convo r) = acknowledge r.request_id (Turns.delete_convo e.env r.conversation_id)
  handle (search_messages r) = do
    page ← search_task (sanitize_fts_query (e.code_units r.text)) (or_else r.limit 20) r.cursor
    done (page_response r.request_id page)
  handle (store_vectors r) =
      acknowledge r.request_id (Vectors.store_vectors e.env r.message_id r.chunks)
  handle (hydrate_vectors r) =
      answer (Vectors.hydrate_vectors e.env)
        (λ vectors. vectors_response (record { request_id = r.request_id; vectors = vectors }))
  handle (upsert_memory r) =
      acknowledge r.request_id
        (Records.upsert_memory e.env (λ s. length (e.code_units s)) r.key r.value r.previous_key)
  handle (delete_memory r) = acknowledge r.request_id (Records.delete_memory e.env r.key)
  handle (list_memories r) =
      answer (Records.list_memories e.env)
        (λ memories. memories_response (record { request_id = r.request_id; memories = memories }))
  handle (upsert_agent r) = acknowledge r.request_id (Records.upsert_agent e.env r.agent)
  handle (get_agent r) =
      answer (Records.get_agent e.env r.agent_id)
        (λ agent. agent_response (record { request_id = r.request_id; agent = agent }))
  handle (list_agents r) =
      answer (Records.list_agents e.env)
        (λ agents. agents_response (record { request_id = r.request_id; agents = agents }))
  handle (delete_agent r) = acknowledge r.request_id (Records.delete_agent e.env r.agent_id)
  handle (upsert_skill r) = acknowledge r.request_id (Records.upsert_skill e.env r.skill)
  handle (get_skill r) =
      answer (Records.get_skill e.env r.skill_id)
        (λ skill. skill_response (record { request_id = r.request_id; skill = skill }))
  handle (list_skills r) =
      answer (Records.list_skills e.env)
        (λ skills. skills_response (record { request_id = r.request_id; skills = skills }))
  handle (delete_skill r) = acknowledge r.request_id (Records.delete_skill e.env r.skill_id)
  handle (clear_all r) = acknowledge r.request_id (Records.clear_all e.env)

  -- What is posted: the response, or the error of the catch.
  unfoldable pub reply : String → Outcome StoreResponse → StoreResponse
  reply id (ok res) = res
  reply id (throw failure) =
      error_response (record { request_id = id; message = e.message failure; code = none })

  -- self.onmessage: the request at the head of the queue, to its end.
  unfoldable pub serve : StoreRequest → Worker → StoreResponse × Worker
  unfolding handle reply
  serve req w = let (r, w') = handle req w in (reply (request_id req) r, w')

  -- The queue: the requests in the order of their arrival, and the responses that are posted.
  unfoldable pub drain : List StoreRequest → Worker → List StoreResponse × Worker
  unfolding serve
  drain [] w = ([], w)
  drain (req ∷ reqs) w =
      let (res, v) = serve req w in let (rest, u) = drain reqs v in (res ∷ rest, u)
