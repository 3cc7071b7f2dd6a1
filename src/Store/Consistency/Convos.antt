-- ===== src/Store/Consistency/Convos.antt =====
-- The statements on conversations and messages keep the constraints of the schema.
use caladon.Prelude.{
  subst, String, ◌==◌, eq_iff, ◌≡◌, refl, true, false, List, All-imp, arith, Bool-cases, inl, inr,
}
use caladon.Table.{has, upsert, delete, delete_where}
use caladon.Table.Laws.{
  has-upsert, has-delete, upsert-IsKeyed, delete_where-IsKeyed, All-upsert, All-delete_where,
}
use caladon.Store.Rows.{StoredConversation, MessageRow}
use caladon.Store.Tables.{Tables, convo_key, message_key, RefersTo, IsConsistent}
use caladon.Store.Action.Keeps.{ok-injective, Preserves, Preserves-ok}
use caladon.Store.Turns.{merge_convo, merge_message, insert_convo, insert_message, remove_convo}

-- a conversation that is there stays there when another is stored
RefersTo-upsert :
    (c : StoredConversation) (cs : List StoredConversation) (m : MessageRow)
    → RefersTo cs m
    → RefersTo (upsert convo_key merge_convo c cs) m
RefersTo-upsert c cs m h =
    rw (has-upsert convo_key merge_convo (λ x r. refl) m.conversation_id c cs, h) (ground arith)

-- a message that does not belong to a deleted conversation still has its own
RefersTo-delete :
    (id : String) (cs : List StoredConversation) (m : MessageRow)
    → RefersTo cs m
    → (m.conversation_id == id) ≡ false
    → RefersTo (delete convo_key id cs) m
RefersTo-delete id cs m h other =
    rw (has-delete convo_key m.conversation_id id cs)
      (ground (arith, h, eq_iff id m.conversation_id, eq_iff m.conversation_id id))

pub insert_convo-Preserves : (c : StoredConversation) → Preserves IsConsistent (insert_convo c)
unfolding insert_convo
insert_convo-Preserves c =
    Preserves-ok IsConsistent
      (λ t. record t { conversations = upsert convo_key merge_convo c t.conversations })
      (λ t h. record {
        convos_keyed =
            upsert-IsKeyed convo_key merge_convo (λ x r. refl) c t.conversations h.convos_keyed;
        messages_keyed = h.messages_keyed;
        messages_refer =
            All-imp (RefersTo t.conversations)
              (RefersTo (upsert convo_key merge_convo c t.conversations))
              (RefersTo-upsert c t.conversations) t.messages h.messages_refer;
        vectors_keyed = h.vectors_keyed;
        memories_keyed = h.memories_keyed;
        agents_keyed = h.agents_keyed;
        skills_keyed = h.skills_keyed;
      })

insert_message_ok :
    (r : MessageRow) (t : Tables)
    → has convo_key r.conversation_id t.conversations ≡ true
    → IsConsistent t
    → IsConsistent (record t { messages = upsert message_key merge_message r t.messages })
insert_message_ok r t found h = record {
  convos_keyed = h.convos_keyed;
  messages_keyed =
      upsert-IsKeyed message_key merge_message (λ x y. refl) r t.messages h.messages_keyed;
  messages_refer =
      All-upsert (RefersTo t.conversations) message_key merge_message (λ x y hx hy. hy) r t.messages
        found h.messages_refer;
  vectors_keyed = h.vectors_keyed;
  memories_keyed = h.memories_keyed;
  agents_keyed = h.agents_keyed;
  skills_keyed = h.skills_keyed;
}

pub insert_message-Preserves : (r : MessageRow) → Preserves IsConsistent (insert_message r)
unfolding insert_message
insert_message-Preserves r = record {
  at = λ t u h e. elim (Bool-cases (has convo_key r.conversation_id t.conversations)) [
    | inl found ↦ subst IsConsistent (ok-injective (rw found at e)) (insert_message_ok r t found h)
    | inr missing ↦ absurd (ground arith)
  ];
}

pub remove_convo-Preserves : (id : String) → Preserves IsConsistent (remove_convo id)
unfolding remove_convo delete
remove_convo-Preserves id =
    Preserves-ok IsConsistent
      (λ t. record t {
        conversations = delete convo_key id t.conversations;
        messages = delete_where (λ m. m.conversation_id == id) t.messages;
      })
      (λ t h. record {
        convos_keyed =
            delete_where-IsKeyed convo_key (λ c. convo_key c == id) t.conversations h.convos_keyed;
        messages_keyed =
            delete_where-IsKeyed message_key (λ m. m.conversation_id == id) t.messages
              h.messages_keyed;
        messages_refer =
            All-delete_where (RefersTo t.conversations) (λ m. m.conversation_id == id)
              {Q = RefersTo (delete convo_key id t.conversations)}
              (RefersTo-delete id t.conversations) t.messages h.messages_refer;
        vectors_keyed = h.vectors_keyed;
        memories_keyed = h.memories_keyed;
        agents_keyed = h.agents_keyed;
        skills_keyed = h.skills_keyed;
      })
