-- ===== src/Store/Consistency/Records.antt =====
-- The statements on embeddings, memories, agents and skills keep the constraints of the schema.
use caladon.Prelude.{
  subst, ℕ, String, ◌==◌, eq_iff, ◌≡◌, refl, Bool, false, List, [], ◌∷◌, ◌++◌, arith, Bool-cases,
  inl, inr,
}
use caladon.Table.{upsert, delete, delete_where, IsKeyed}
use caladon.Table.Laws.{upsert-IsKeyed, delete_where-IsKeyed}
use caladon.Store.Rows.{EmbeddingRow, StoredMemory, StoredAgent, StoredSkill}
use caladon.Store.Tables.{
  Tables, memory_key, agent_key, skill_key, has_embedding, EmbeddingsKeyed, IsConsistent,
}
use caladon.Store.Action.Keeps.{ok-injective, Preserves, Preserves-ok}
use caladon.Store.Vectors.{delete_vectors, insert_vector}
use caladon.Store.Records.{
  merge_memory, merge_agent, merge_skill, insert_memory, remove_memory, insert_agent, remove_agent,
  insert_skill, remove_skill, TableName, message_embeddings, embeddings, chunks, files, messages,
  conversations, memories, agents, skills, clear_table,
}

-- an embedding that is not there is not there after a deletion
has_embedding-delete_where :
    (p : EmbeddingRow → Bool) (owner : String) (ord : ℕ) (rs : List EmbeddingRow)
    → has_embedding owner ord rs ≡ false
    → has_embedding owner ord (delete_where p rs) ≡ false
unfolding has_embedding delete_where
has_embedding-delete_where p owner ord [] h = refl
has_embedding-delete_where p owner ord (r ∷ rs) h =
    ground (arith, has_embedding-delete_where p owner ord rs)

delete_where-EmbeddingsKeyed :
    (p : EmbeddingRow → Bool) (rs : List EmbeddingRow)
    → EmbeddingsKeyed rs
    → EmbeddingsKeyed (delete_where p rs)
unfolding delete_where
delete_where-EmbeddingsKeyed p [] h = tt
delete_where-EmbeddingsKeyed p (r ∷ rs) h = elim (Bool-cases (p r)) [
  | inl gone ↦ rw gone (delete_where-EmbeddingsKeyed p rs h.1)
  | inr kept ↦ rw kept (
    has_embedding-delete_where p r.message_id r.ord rs h.0,
    delete_where-EmbeddingsKeyed p rs h.1,
  )
]

has_embedding-append :
    (x y : EmbeddingRow) (rs : List EmbeddingRow)
    → has_embedding x.message_id x.ord rs ≡ false
    → has_embedding y.message_id y.ord (x ∷ rs) ≡ false
    → has_embedding x.message_id x.ord (rs ++ y ∷ []) ≡ false
unfolding has_embedding
has_embedding-append x y [] h k =
    ground (arith, eq_iff x.message_id y.message_id, eq_iff y.message_id x.message_id)
has_embedding-append x y (r ∷ rs) h k = ground (arith, has_embedding-append x y rs)

EmbeddingsKeyed-append :
    (y : EmbeddingRow) (rs : List EmbeddingRow)
    → has_embedding y.message_id y.ord rs ≡ false
    → EmbeddingsKeyed rs
    → EmbeddingsKeyed (rs ++ y ∷ [])
unfolding has_embedding
EmbeddingsKeyed-append y [] h k = (refl, tt)
EmbeddingsKeyed-append y (r ∷ rs) h k =
    (has_embedding-append r y rs k.0 (ground arith), EmbeddingsKeyed-append y rs (ground arith) k.1)

with_vectors :
    (t : Tables) (rs : List EmbeddingRow)
    → EmbeddingsKeyed rs
    → IsConsistent t
    → IsConsistent (record t { message_embeddings = rs })
with_vectors t rs keyed h = record {
  convos_keyed = h.convos_keyed;
  messages_keyed = h.messages_keyed;
  messages_refer = h.messages_refer;
  vectors_keyed = keyed;
  memories_keyed = h.memories_keyed;
  agents_keyed = h.agents_keyed;
  skills_keyed = h.skills_keyed;
}

pub delete_vectors-Preserves : (owner : String) → Preserves IsConsistent (delete_vectors owner)
unfolding delete_vectors
delete_vectors-Preserves owner =
    Preserves-ok IsConsistent
      (λ t. record t {
        message_embeddings = delete_where (λ r. r.message_id == owner) t.message_embeddings;
      })
      (λ t h.
        with_vectors t (delete_where (λ r. r.message_id == owner) t.message_embeddings)
          (delete_where-EmbeddingsKeyed (λ r. r.message_id == owner) t.message_embeddings
            h.vectors_keyed)
          h)

pub insert_vector-Preserves : (r : EmbeddingRow) → Preserves IsConsistent (insert_vector r)
unfolding insert_vector
insert_vector-Preserves r = record {
  at = λ t u h e. elim (Bool-cases (has_embedding r.message_id r.ord t.message_embeddings)) [
    | inl found ↦ absurd (ground arith)
    | inr missing ↦ subst IsConsistent (ok-injective (rw missing at e)) (
        with_vectors t (t.message_embeddings ++ r ∷ [])
          (EmbeddingsKeyed-append r t.message_embeddings missing h.vectors_keyed) h)
  ];
}

module _ (t : Tables) (h : IsConsistent t) where
  with_records :
      (ms : List StoredMemory) (ags : List StoredAgent) (ss : List StoredSkill)
      → IsKeyed memory_key ms
      → IsKeyed agent_key ags
      → IsKeyed skill_key ss
      → IsConsistent (record t { memories = ms; agents = ags; skills = ss })
  with_records ms ags ss hm ha hs = record {
    convos_keyed = h.convos_keyed;
    messages_keyed = h.messages_keyed;
    messages_refer = h.messages_refer;
    vectors_keyed = h.vectors_keyed;
    memories_keyed = hm;
    agents_keyed = ha;
    skills_keyed = hs;
  }

pub insert_memory-Preserves : (m : StoredMemory) → Preserves IsConsistent (insert_memory m)
unfolding insert_memory
insert_memory-Preserves m =
    Preserves-ok IsConsistent
      (λ t. record t { memories = upsert memory_key merge_memory m t.memories })
      (λ t h.
        with_records t h (upsert memory_key merge_memory m t.memories) t.agents t.skills
          (upsert-IsKeyed memory_key merge_memory (λ x r. refl) m t.memories h.memories_keyed)
          h.agents_keyed h.skills_keyed)

pub remove_memory-Preserves : (k : String) → Preserves IsConsistent (remove_memory k)
unfolding remove_memory delete
remove_memory-Preserves k =
    Preserves-ok IsConsistent (λ t. record t { memories = delete memory_key k t.memories })
      (λ t h.
        with_records t h (delete memory_key k t.memories) t.agents t.skills
          (delete_where-IsKeyed memory_key (λ x. memory_key x == k) t.memories h.memories_keyed)
          h.agents_keyed h.skills_keyed)

pub insert_agent-Preserves : (a : StoredAgent) → Preserves IsConsistent (insert_agent a)
unfolding insert_agent
insert_agent-Preserves a =
    Preserves-ok IsConsistent (λ t. record t { agents = upsert agent_key merge_agent a t.agents })
      (λ t h.
        with_records t h t.memories (upsert agent_key merge_agent a t.agents) t.skills
          h.memories_keyed
          (upsert-IsKeyed agent_key merge_agent (λ x r. refl) a t.agents h.agents_keyed)
          h.skills_keyed)

pub remove_agent-Preserves : (k : String) → Preserves IsConsistent (remove_agent k)
unfolding remove_agent delete
remove_agent-Preserves k =
    Preserves-ok IsConsistent (λ t. record t { agents = delete agent_key k t.agents })
      (λ t h.
        with_records t h t.memories (delete agent_key k t.agents) t.skills h.memories_keyed
          (delete_where-IsKeyed agent_key (λ x. agent_key x == k) t.agents h.agents_keyed)
          h.skills_keyed)

pub insert_skill-Preserves : (s : StoredSkill) → Preserves IsConsistent (insert_skill s)
unfolding insert_skill
insert_skill-Preserves s =
    Preserves-ok IsConsistent (λ t. record t { skills = upsert skill_key merge_skill s t.skills })
      (λ t h.
        with_records t h t.memories t.agents (upsert skill_key merge_skill s t.skills)
          h.memories_keyed h.agents_keyed
          (upsert-IsKeyed skill_key merge_skill (λ x r. refl) s t.skills h.skills_keyed))

pub remove_skill-Preserves : (k : String) → Preserves IsConsistent (remove_skill k)
unfolding remove_skill delete
remove_skill-Preserves k =
    Preserves-ok IsConsistent (λ t. record t { skills = delete skill_key k t.skills })
      (λ t h.
        with_records t h t.memories t.agents (delete skill_key k t.skills) h.memories_keyed
          h.agents_keyed
          (delete_where-IsKeyed skill_key (λ x. skill_key x == k) t.skills h.skills_keyed))

emptied : (t : Tables) → IsConsistent t → IsConsistent (record t { messages = [] })
emptied t h = record {
  convos_keyed = h.convos_keyed;
  messages_keyed = tt;
  messages_refer = tt;
  vectors_keyed = h.vectors_keyed;
  memories_keyed = h.memories_keyed;
  agents_keyed = h.agents_keyed;
  skills_keyed = h.skills_keyed;
}

pub clear_table-Preserves : (n : TableName) → Preserves IsConsistent (clear_table n)
unfolding clear_table
clear_table-Preserves message_embeddings =
    Preserves-ok IsConsistent _ (λ t h. with_vectors t [] tt h)
clear_table-Preserves embeddings =
    Preserves-ok IsConsistent (λ t. record t { embeddings = [] })
      (λ t h. record {
        convos_keyed = h.convos_keyed;
        messages_keyed = h.messages_keyed;
        messages_refer = h.messages_refer;
        vectors_keyed = h.vectors_keyed;
        memories_keyed = h.memories_keyed;
        agents_keyed = h.agents_keyed;
        skills_keyed = h.skills_keyed;
      })
clear_table-Preserves chunks =
    Preserves-ok IsConsistent (λ t. record t { chunks = []; embeddings = [] })
      (λ t h. record {
        convos_keyed = h.convos_keyed;
        messages_keyed = h.messages_keyed;
        messages_refer = h.messages_refer;
        vectors_keyed = h.vectors_keyed;
        memories_keyed = h.memories_keyed;
        agents_keyed = h.agents_keyed;
        skills_keyed = h.skills_keyed;
      })
clear_table-Preserves files =
    Preserves-ok IsConsistent (λ t. record t { files = []; chunks = []; embeddings = [] })
      (λ t h. record {
        convos_keyed = h.convos_keyed;
        messages_keyed = h.messages_keyed;
        messages_refer = h.messages_refer;
        vectors_keyed = h.vectors_keyed;
        memories_keyed = h.memories_keyed;
        agents_keyed = h.agents_keyed;
        skills_keyed = h.skills_keyed;
      })
clear_table-Preserves messages = Preserves-ok IsConsistent _ emptied
clear_table-Preserves conversations =
    Preserves-ok IsConsistent (λ t. record t { conversations = []; messages = [] })
      (λ t h. record {
        convos_keyed = tt;
        messages_keyed = tt;
        messages_refer = tt;
        vectors_keyed = h.vectors_keyed;
        memories_keyed = h.memories_keyed;
        agents_keyed = h.agents_keyed;
        skills_keyed = h.skills_keyed;
      })
clear_table-Preserves memories =
    Preserves-ok IsConsistent (λ t. record t { memories = [] })
      (λ t h. with_records t h [] t.agents t.skills tt h.agents_keyed h.skills_keyed)
clear_table-Preserves agents =
    Preserves-ok IsConsistent (λ t. record t { agents = [] })
      (λ t h. with_records t h t.memories [] t.skills h.memories_keyed tt h.skills_keyed)
clear_table-Preserves skills =
    Preserves-ok IsConsistent (λ t. record t { skills = [] })
      (λ t h. with_records t h t.memories t.agents [] h.memories_keyed h.agents_keyed tt)
