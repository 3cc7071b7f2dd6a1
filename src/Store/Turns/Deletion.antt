-- ===== src/Store/Turns/Deletion.antt =====
-- store.worker.ts, deleteConvo, and persistTurn where the foreign key refuses a message.
use caladon.Store.Turns.{delete_convo, merge_convo, messages_of, persist_turn}
use caladon.Store.Tables.{Tables, convo_key}
use caladon.Store.Action.Laws.{Quiet}
use caladon.Store.Rows.{MessageRow, StoredConversation, StoredMessage, message_to_row}
use caladon.Prelude.{
  List, String, [], arith, eq_iff, eq_refl, false, none, refl, ◌==◌, ◌∷◌, ◌≡◌, ◌≢◌,
}
use caladon.Store.Action.{Env, World, foreign_key, ok, throw}
use caladon.Table.{select, delete_where, find, has, upsert}
use caladon.Table.Laws.{find-delete, select-delete_where, has-upsert}

-- The rows of another conversation are not among the deleted ones.
select-delete_where_other :
    (id j : String) (ms : List MessageRow)
    → id ≢ j
    → select (λ m. m.conversation_id == j) (delete_where (λ m. m.conversation_id == id) ms)
      ≡ select (λ m. m.conversation_id == j) ms
unfolding select delete_where
select-delete_where_other id j [] differ = refl
select-delete_where_other id j (m ∷ ms) differ = ground (
  arith,
  eq_iff m.conversation_id j,
  eq_iff m.conversation_id id,
  select-delete_where_other id j ms differ,
)

-- What a deletion of `id` leaves: nothing of the conversation and its messages, all of another
-- conversation `j`, and every embedding, those owned by the deleted messages among them.
pub record IsDeleted (id j : String) (before after : Tables) : Type 0 where
  pub convo_gone : find convo_key id after.conversations ≡ none
  pub messages_gone : messages_of id after ≡ []
  pub convo_stays : find convo_key j after.conversations ≡ find convo_key j before.conversations
  pub messages_stay : messages_of j after ≡ messages_of j before
  pub embeddings_stay : after.message_embeddings ≡ before.message_embeddings

-- Where no statement fails, deleteConvo removes the conversation and its messages, and leaves every
-- other conversation with its messages, and the table message_embeddings, as they were.
pub delete_convo-IsDeleted :
    (env : Env) (id j : String) (w : World)
    → Quiet env
    → id ≢ j
    → ((delete_convo env id w).0 ≡ ok tt) × IsDeleted id j w.tables (delete_convo env id w).1.tables
unfolding delete_convo messages_of
delete_convo-IsDeleted env id j w quiet differ = rw (quiet w.tick) (
  refl,
  record {
    convo_gone = rw (find-delete convo_key id id w.tables.conversations, eq_refl id);
    messages_gone = select-delete_where (λ m. m.conversation_id == id) w.tables.messages;
    convo_stays =
        rw (find-delete convo_key j id w.tables.conversations) (ground (arith, eq_iff id j));
    messages_stay = select-delete_where_other id j w.tables.messages differ;
    embeddings_stay = refl;
  },
)

-- A turn whose user message belongs to a conversation that neither is being stored nor exists is
-- refused by the foreign key, and the conversation row that was written before it is rolled back.
pub persist_turn-foreign_key :
    (env : Env) (c : StoredConversation) (u a : StoredMessage) (w : World)
    → Quiet env
    → c.conversation_id ≢ u.conversation_id
    → has convo_key u.conversation_id w.tables.conversations ≡ false
    → ((persist_turn env c u a w).0 ≡ throw foreign_key)
      × ((persist_turn env c u a w).1.tables ≡ w.tables)
unfolding persist_turn message_to_row
persist_turn-foreign_key env c u a w quiet differ absent =
    let refused : has convo_key u.conversation_id
          (upsert convo_key merge_convo c w.tables.conversations)
        ≡ false =
      rw (has-upsert convo_key merge_convo (λ x r. refl) u.conversation_id c w.tables.conversations)
        (ground (arith, eq_iff c.conversation_id u.conversation_id)) in
    (simp (quiet, refused), simp (quiet, refused))
