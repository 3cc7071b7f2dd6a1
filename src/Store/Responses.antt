-- ===== src/Store/Responses.antt =====
-- The messages between the main thread and the store worker, in
-- web-client/overlay/client/src/lib/store/types.ts: the responses.
use caladon.Store.Rows.{
  StoredAgent, StoredConversation, StoredMemory, StoredMessage, StoredSkill, StoredVector,
}
use caladon.Store.Requests.{Double}
use caladon.Prelude.{ℕ, String, Option, List}

-- A hit of the full-text search, with the bm25 rank of FTS5.
pub record SearchHit : Type 0 where
  pub message_id : String
  pub conversation_id : String
  pub snippet : String
  pub rank : Double
  pub created_at : ℕ

pub record OkResponse : Type 0 where
  pub request_id : String
  pub result : Option String

pub record ErrorResponse : Type 0 where
  pub request_id : String
  pub message : String
  pub code : Option String

pub record HydrateResponse : Type 0 where
  pub request_id : String
  pub conversation : Option StoredConversation
  pub messages : List StoredMessage

pub record ListConvosResponse : Type 0 where
  pub request_id : String
  pub conversations : List StoredConversation
  pub next_cursor : Option ℕ

pub record SearchResponse : Type 0 where
  pub request_id : String
  pub hits : List SearchHit
  pub next_cursor : Option Double

pub record VectorsResponse : Type 0 where
  pub request_id : String
  pub vectors : List StoredVector

pub record MemoriesResponse : Type 0 where
  pub request_id : String
  pub memories : List StoredMemory

pub record AgentsResponse : Type 0 where
  pub request_id : String
  pub agents : List StoredAgent

pub record AgentResponse : Type 0 where
  pub request_id : String
  pub agent : Option StoredAgent

pub record SkillsResponse : Type 0 where
  pub request_id : String
  pub skills : List StoredSkill

pub record SkillResponse : Type 0 where
  pub request_id : String
  pub skill : Option StoredSkill

pub data StoreResponse : Type 0 where
  ok_response : OkResponse → StoreResponse
  error_response : ErrorResponse → StoreResponse
  hydrate_response : HydrateResponse → StoreResponse
  list_convos_response : ListConvosResponse → StoreResponse
  search_response : SearchResponse → StoreResponse
  vectors_response : VectorsResponse → StoreResponse
  memories_response : MemoriesResponse → StoreResponse
  agents_response : AgentsResponse → StoreResponse
  agent_response : AgentResponse → StoreResponse
  skills_response : SkillsResponse → StoreResponse
  skill_response : SkillResponse → StoreResponse

-- res.requestId
abbrev pub response_id : StoreResponse → String
response_id (ok_response r) = r.request_id
response_id (error_response r) = r.request_id
response_id (hydrate_response r) = r.request_id
response_id (list_convos_response r) = r.request_id
response_id (search_response r) = r.request_id
response_id (vectors_response r) = r.request_id
response_id (memories_response r) = r.request_id
response_id (agents_response r) = r.request_id
response_id (agent_response r) = r.request_id
response_id (skills_response r) = r.request_id
response_id (skill_response r) = r.request_id
