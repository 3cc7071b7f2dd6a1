-- ===== src/Store/Requests.antt =====
-- The messages between the main thread and the store worker, in
-- web-client/overlay/client/src/lib/store/types.ts: the requests.
use caladon.Store.Rows.{StoredAgent, StoredConversation, StoredMessage, StoredSkill, VectorChunk}
use caladon.Store.Action.{Json}
use caladon.Prelude.{ℕ, String, Option, List}

-- A JavaScript number that need be no natural number, by the 64 bits of its pattern.
abbrev pub Double : Type 0
Double = ℕ

pub record InitRequest : Type 0 where
  pub request_id : String
  pub hex_key : String

pub record PersistTurnRequest : Type 0 where
  pub request_id : String
  pub conversation_id : String
  pub user_msg : StoredMessage
  pub assistant_msg : StoredMessage
  pub convo : StoredConversation

pub record HydrateConvoRequest : Type 0 where
  pub request_id : String
  pub conversation_id : String

pub record ListConvosRequest : Type 0 where
  pub request_id : String
  pub limit : Option ℕ
  pub cursor : Option ℕ

pub record ForkRequest : Type 0 where
  pub request_id : String
  pub conversation_id : String
  pub from_message_id : String

pub record ImportRequest : Type 0 where
  pub request_id : String
  pub json : Json

pub record DeleteConvoRequest : Type 0 where
  pub request_id : String
  pub conversation_id : String

pub record SearchRequest : Type 0 where
  pub request_id : String
  pub text : String
  pub limit : Option ℕ
  pub cursor : Option Double

pub record StoreVectorsRequest : Type 0 where
  pub request_id : String
  pub message_id : String
  pub chunks : List VectorChunk

pub record HydrateVectorsRequest : Type 0 where
  pub request_id : String

pub record UpsertMemoryRequest : Type 0 where
  pub request_id : String
  pub key : String
  pub value : String
  pub previous_key : Option String

pub record DeleteMemoryRequest : Type 0 where
  pub request_id : String
  pub key : String

pub record ListMemoriesRequest : Type 0 where
  pub request_id : String

pub record UpsertAgentRequest : Type 0 where
  pub request_id : String
  pub agent : StoredAgent

pub record GetAgentRequest : Type 0 where
  pub request_id : String
  pub agent_id : String

pub record ListAgentsRequest : Type 0 where
  pub request_id : String

pub record DeleteAgentRequest : Type 0 where
  pub request_id : String
  pub agent_id : String

pub record UpsertSkillRequest : Type 0 where
  pub request_id : String
  pub skill : StoredSkill

pub record GetSkillRequest : Type 0 where
  pub request_id : String
  pub skill_id : String

pub record ListSkillsRequest : Type 0 where
  pub request_id : String

pub record DeleteSkillRequest : Type 0 where
  pub request_id : String
  pub skill_id : String

pub record ClearAllRequest : Type 0 where
  pub request_id : String

pub data StoreRequest : Type 0 where
  init : InitRequest → StoreRequest
  persist_turn : PersistTurnRequest → StoreRequest
  hydrate_convo : HydrateConvoRequest → StoreRequest
  list_convos : ListConvosRequest → StoreRequest
  fork : ForkRequest → StoreRequest
  import_chat : ImportRequest → StoreRequest
  delete_convo : DeleteConvoRequest → StoreRequest
  search_messages : SearchRequest → StoreRequest
  store_vectors : StoreVectorsRequest → StoreRequest
  hydrate_vectors : HydrateVectorsRequest → StoreRequest
  upsert_memory : UpsertMemoryRequest → StoreRequest
  delete_memory : DeleteMemoryRequest → StoreRequest
  list_memories : ListMemoriesRequest → StoreRequest
  upsert_agent : UpsertAgentRequest → StoreRequest
  get_agent : GetAgentRequest → StoreRequest
  list_agents : ListAgentsRequest → StoreRequest
  delete_agent : DeleteAgentRequest → StoreRequest
  upsert_skill : UpsertSkillRequest → StoreRequest
  get_skill : GetSkillRequest → StoreRequest
  list_skills : ListSkillsRequest → StoreRequest
  delete_skill : DeleteSkillRequest → StoreRequest
  clear_all : ClearAllRequest → StoreRequest
