-- ===== src/Store/Rows.antt =====
-- The persisted shapes of web-client/overlay/client/src/lib/store/types.ts, and the rows that
-- schema.sql.ts gives a different column type. A timestamp in milliseconds is a number.
use caladon.Prelude.{ℕ, String, Bool, Option, List, if◌then◌else◌, eqb}

pub record StoredConversation : Type 0 where
  pub conversation_id : String
  pub title : Option String
  pub endpoint : Option String
  pub model : Option String
  pub created_at : ℕ
  pub updated_at : ℕ
  pub convo_json : String

pub record StoredMessage : Type 0 where
  pub message_id : String
  pub conversation_id : String
  pub parent_message_id : Option String
  pub is_created_by_user : Bool
  pub text : String
  pub content_json : Option String
  pub model : Option String
  pub created_at : ℕ
  pub updated_at : ℕ

-- A row of `messages`: the column isCreatedByUser is an INTEGER.
pub record MessageRow : Type 0 where
  pub message_id : String
  pub conversation_id : String
  pub parent_message_id : Option String
  pub is_created_by_user : ℕ
  pub text : String
  pub content_json : Option String
  pub model : Option String
  pub created_at : ℕ
  pub updated_at : ℕ

-- The four bytes of a Float32, in the order in which the host stores them.
pub record Float32 : Type 0 where
  pub b0 : ℕ
  pub b1 : ℕ
  pub b2 : ℕ
  pub b3 : ℕ

pub record VectorChunk : Type 0 where
  pub text : String
  pub vec : List Float32

pub record StoredVector : Type 0 where
  pub message_id : String
  pub ord : ℕ
  pub text : String
  pub vec : List Float32

-- A row of `message_embeddings`: the vector is a BLOB of bytes.
pub record EmbeddingRow : Type 0 where
  pub message_id : String
  pub ord : ℕ
  pub text : String
  pub vec : List ℕ

pub record StoredMemory : Type 0 where
  pub key : String
  pub value : String
  pub token_count : ℕ
  pub updated_at : ℕ

pub record StoredAgent : Type 0 where
  pub agent_id : String
  pub name : String
  pub description : Option String
  pub instructions : Option String
  pub model : Option String
  pub provider : Option String
  pub tools : Option String
  pub config_json : String
  pub created_at : ℕ
  pub updated_at : ℕ

pub record StoredSkill : Type 0 where
  pub skill_id : String
  pub name : String
  pub description : Option String
  pub body : String
  pub created_at : ℕ
  pub updated_at : ℕ

-- The tables of the first document index, which only CLEAR_ALL touches.
pub record FileRow : Type 0 where
  pub file_id : String
  pub conversation_id : Option String
  pub name : String
  pub mime : Option String
  pub created_at : ℕ

pub record ChunkRow : Type 0 where
  pub chunk_id : String
  pub file_id : String
  pub ord : ℕ
  pub text : String

pub record ChunkEmbeddingRow : Type 0 where
  pub chunk_id : String
  pub vec : List ℕ

-- rowToMessage
unfoldable pub row_to_message : MessageRow → StoredMessage
row_to_message r = record {
  message_id = r.message_id;
  conversation_id = r.conversation_id;
  parent_message_id = r.parent_message_id;
  is_created_by_user = eqb r.is_created_by_user 1;
  text = r.text;
  content_json = r.content_json;
  model = r.model;
  created_at = r.created_at;
  updated_at = r.updated_at;
}

-- The bound values of upsertMessage: `m.isCreatedByUser ? 1 : 0`.
unfoldable pub message_to_row : StoredMessage → MessageRow
message_to_row m = record {
  message_id = m.message_id;
  conversation_id = m.conversation_id;
  parent_message_id = m.parent_message_id;
  is_created_by_user = if m.is_created_by_user then 1 else 0;
  text = m.text;
  content_json = m.content_json;
  model = m.model;
  created_at = m.created_at;
  updated_at = m.updated_at;
}
