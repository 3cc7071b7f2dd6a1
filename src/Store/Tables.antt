-- ===== src/Store/Tables.antt =====
-- The database of web-client/overlay/client/src/lib/store/schema.sql.ts: one list of rows for each
-- table, and the constraints that its DDL declares. The full-text index over messages.text is kept
-- by triggers from the rows of `messages`, so it is no state of its own here.
use caladon.Prelude.{ℕ, String, ◌==◌, eqb, ◌≡◌, Bool, true, false, ◌&&◌, ◌||◌, List, [], ◌∷◌, All}
use caladon.Table.{has, IsKeyed}
use caladon.Store.Rows.{
  StoredConversation, MessageRow, EmbeddingRow, StoredMemory, StoredAgent, StoredSkill, FileRow,
  ChunkRow, ChunkEmbeddingRow,
}

pub record Tables : Type 0 where
  pub conversations : List StoredConversation
  pub messages : List MessageRow
  pub files : List FileRow
  pub chunks : List ChunkRow
  pub embeddings : List ChunkEmbeddingRow
  pub message_embeddings : List EmbeddingRow
  pub memories : List StoredMemory
  pub agents : List StoredAgent
  pub skills : List StoredSkill

-- The primary keys.
abbrev pub convo_key : StoredConversation → String
convo_key c = c.conversation_id

abbrev pub message_key : MessageRow → String
message_key m = m.message_id

abbrev pub memory_key : StoredMemory → String
memory_key m = m.key

abbrev pub agent_key : StoredAgent → String
agent_key a = a.agent_id

abbrev pub skill_key : StoredSkill → String
skill_key s = s.skill_id

-- The freshly created database.
abbrev pub empty_tables : Tables
empty_tables = record {
  conversations = [];
  messages = [];
  files = [];
  chunks = [];
  embeddings = [];
  message_embeddings = [];
  memories = [];
  agents = [];
  skills = [];
}

-- PRIMARY KEY (messageId, ord) of message_embeddings.
unfoldable pub has_embedding : String → ℕ → List EmbeddingRow → Bool
has_embedding owner ord [] = false
has_embedding owner ord (r ∷ rs) =
    r.message_id == owner && eqb r.ord ord || has_embedding owner ord rs

abbrev pub EmbeddingsKeyed : List EmbeddingRow → Type 0
EmbeddingsKeyed [] = Unit
EmbeddingsKeyed (r ∷ rs) = (has_embedding r.message_id r.ord rs ≡ false) × EmbeddingsKeyed rs

-- messages.conversationId REFERENCES conversations(conversationId)
abbrev pub RefersTo : List StoredConversation → MessageRow → Type 0
RefersTo cs m = has convo_key m.conversation_id cs ≡ true

-- What the constraints of the schema promise.
pub record IsConsistent (t : Tables) : Type 0 where
  pub convos_keyed : IsKeyed convo_key t.conversations
  pub messages_keyed : IsKeyed message_key t.messages
  pub messages_refer : All (RefersTo t.conversations) t.messages
  pub vectors_keyed : EmbeddingsKeyed t.message_embeddings
  pub memories_keyed : IsKeyed memory_key t.memories
  pub agents_keyed : IsKeyed agent_key t.agents
  pub skills_keyed : IsKeyed skill_key t.skills

pub IsConsistent-empty : IsConsistent empty_tables
IsConsistent-empty = record {
  convos_keyed = tt;
  messages_keyed = tt;
  messages_refer = tt;
  vectors_keyed = tt;
  memories_keyed = tt;
  agents_keyed = tt;
  skills_keyed = tt;
}
