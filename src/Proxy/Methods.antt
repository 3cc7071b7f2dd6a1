-- ===== src/Proxy/Methods.antt =====
-- web-client/overlay/client/src/lib/store/client.ts: the methods of StoreProxy. Each awaits `ready`
-- and sends one request; the defaults of the parameters are those of the source.
use caladon.Prelude.{ℕ, String, Option, some, none, List}
use caladon.Store.Rows.{StoredConversation, StoredMessage, StoredAgent, StoredSkill, VectorChunk}
use caladon.Store.Action.{Json, query}
use caladon.Store.Requests.{StoreRequest, Double}
use caladon.Proxy.{Host, Proxy, call}

-- A parameter that may be left out, with its default.
abbrev or_default : ℕ → Option ℕ → ℕ
or_default d none = d
or_default d (some n) = n

module _ (host : Host) where
  unfoldable pub persist_turn :
      (conversation_id : String) (user_msg assistant_msg : StoredMessage)
      (convo : StoredConversation)
      → Proxy
      → Proxy
  unfolding call
  persist_turn conversation_id user_msg assistant_msg convo = call host (λ id.
      StoreRequest.persist_turn (record {
        request_id = id;
        conversation_id = conversation_id;
        user_msg = user_msg;
        assistant_msg = assistant_msg;
        convo = convo;
      }))

  unfoldable pub hydrate : (conversation_id : String) → Proxy → Proxy
  unfolding call
  hydrate conversation_id = call host (λ id.
      StoreRequest.hydrate_convo (record { request_id = id; conversation_id = conversation_id }))

  unfoldable pub fork_conversation : (conversation_id from_message_id : String) → Proxy → Proxy
  unfolding call
  fork_conversation conversation_id from_message_id = call host (λ id. StoreRequest.fork (record {
    request_id = id;
    conversation_id = conversation_id;
    from_message_id = from_message_id;
  }))

  unfoldable pub import_chat_export : (json : Json) → Proxy → Proxy
  unfolding call
  import_chat_export json =
      call host (λ id. StoreRequest.import_chat (record { request_id = id; json = json }))

  unfoldable pub delete_conversation : (conversation_id : String) → Proxy → Proxy
  unfolding call
  delete_conversation conversation_id = call host (λ id.
      StoreRequest.delete_convo (record { request_id = id; conversation_id = conversation_id }))

  unfoldable pub store_vectors : (message_id : String) (chunks : List VectorChunk) → Proxy → Proxy
  unfolding call
  store_vectors message_id chunks = call host (λ id.
      StoreRequest.store_vectors
        (record { request_id = id; message_id = message_id; chunks = chunks }))

  unfoldable pub hydrate_vectors : Proxy → Proxy
  unfolding call
  hydrate_vectors = call host (λ id. StoreRequest.hydrate_vectors (record { request_id = id }))

  unfoldable pub upsert_memory : (key value : String) (previous_key : Option String) → Proxy → Proxy
  unfolding call
  upsert_memory key value previous_key = call host (λ id.
      StoreRequest.upsert_memory
        (record { request_id = id; key = key; value = value; previous_key = previous_key }))

  unfoldable pub delete_memory : (key : String) → Proxy → Proxy
  unfolding call
  delete_memory key =
      call host (λ id. StoreRequest.delete_memory (record { request_id = id; key = key }))

  unfoldable pub list_memories : Proxy → Proxy
  unfolding call
  list_memories = call host (λ id. StoreRequest.list_memories (record { request_id = id }))

  unfoldable pub upsert_agent : (agent : StoredAgent) → Proxy → Proxy
  unfolding call
  upsert_agent agent =
      call host (λ id. StoreRequest.upsert_agent (record { request_id = id; agent = agent }))

  unfoldable pub get_agent : (agent_id : String) → Proxy → Proxy
  unfolding call
  get_agent agent_id =
      call host (λ id. StoreRequest.get_agent (record { request_id = id; agent_id = agent_id }))

  unfoldable pub list_agents : Proxy → Proxy
  unfolding call
  list_agents = call host (λ id. StoreRequest.list_agents (record { request_id = id }))

  unfoldable pub delete_agent : (agent_id : String) → Proxy → Proxy
  unfolding call
  delete_agent agent_id =
      call host (λ id. StoreRequest.delete_agent (record { request_id = id; agent_id = agent_id }))

  unfoldable pub upsert_skill : (skill : StoredSkill) → Proxy → Proxy
  unfolding call
  upsert_skill skill =
      call host (λ id. StoreRequest.upsert_skill (record { request_id = id; skill = skill }))

  unfoldable pub get_skill : (skill_id : String) → Proxy → Proxy
  unfolding call
  get_skill skill_id =
      call host (λ id. StoreRequest.get_skill (record { request_id = id; skill_id = skill_id }))

  unfoldable pub list_skills : Proxy → Proxy
  unfolding call
  list_skills = call host (λ id. StoreRequest.list_skills (record { request_id = id }))

  unfoldable pub delete_skill : (skill_id : String) → Proxy → Proxy
  unfolding call
  delete_skill skill_id =
      call host (λ id. StoreRequest.delete_skill (record { request_id = id; skill_id = skill_id }))

  unfoldable pub clear_store : Proxy → Proxy
  unfolding call
  clear_store = call host (λ id. StoreRequest.clear_all (record { request_id = id }))

  unfoldable pub list_conversations : (limit cursor : Option ℕ) → Proxy → Proxy
  unfolding call
  list_conversations limit cursor = call host (λ id.
      StoreRequest.list_convos
        (record { request_id = id; limit = some (or_default 50 limit); cursor = cursor }))

  unfoldable pub search_hits : String → Option ℕ → Option Double → Proxy → Proxy
  unfolding call
  search_hits query limit cursor = call host (λ id. StoreRequest.search_messages (record {
    request_id = id;
    text = query;
    limit = some (or_default 20 limit);
    cursor = cursor;
  }))
