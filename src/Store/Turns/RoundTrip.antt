-- ===== src/Store/Turns/RoundTrip.antt =====
-- store.worker.ts, persistTurn against hydrateConvo.
use caladon.Table.Laws.{
  has-upsert, find-upsert, find_absent, merged, select-append, select_none, upsert_absent,
}
use caladon.Prelude.{
  ◌≡◌, true, arith, List, String, eq_refl, refl, All, All-imp, [], ap, eq_iff, false, ◌==◌, ◌∷◌,
  ◌≢◌, Bool, some, ◌++◌, ◌≤◌, map,
}
use caladon.Table.{has, upsert, find, insert_row, order_by, select}
use caladon.Store.Rows.{
  StoredConversation, StoredMessage, row_to_message, message_to_row, MessageRow,
}
use caladon.Store.Tables.{Tables, convo_key, message_key, IsConsistent, RefersTo}
use caladon.Store.Action.{Env, World, ok}
use caladon.Store.Action.Laws.{Quiet}
use caladon.Store.Turns.{
  merge_convo, merge_message, persist_turn, messages_of, hydrate_convo, by_created,
}

-- What a reader gets of a stored message is the message.
pub row_to_message-message_to_row : (m : StoredMessage) → row_to_message (message_to_row m) ≡ m
unfolding row_to_message message_to_row
row_to_message-message_to_row m = ground arith

-- The tables after a turn.
unfoldable pub turned : StoredConversation → StoredMessage → StoredMessage → Tables → Tables
turned c u a t = record t {
  conversations = upsert convo_key merge_convo c t.conversations;
  messages =
      upsert message_key merge_message (message_to_row a)
        (upsert message_key merge_message (message_to_row u) t.messages);
}

-- a message that carries the id of the conversation just stored satisfies the foreign key
stored_has :
    (c : StoredConversation) (id : String) (cs : List StoredConversation)
    → id ≡ c.conversation_id
    → has convo_key id (upsert convo_key merge_convo c cs) ≡ true
stored_has c id cs h =
    rw (has-upsert convo_key merge_convo (λ x r. refl) id c cs, h, eq_refl c.conversation_id)

module _ (env : Env) (quiet : Quiet env) where
  -- A turn whose two messages carry the conversation's id is stored: the conversation and both
  -- messages are inserted or updated, and nothing else changes.
  pub persist_turn_lem :
      (c : StoredConversation) (u a : StoredMessage) (w : World)
      → u.conversation_id ≡ c.conversation_id
      → a.conversation_id ≡ c.conversation_id
      → ((persist_turn env c u a w).0 ≡ ok tt)
        × ((persist_turn env c u a w).1.tables ≡ turned c u a w.tables)
  unfolding persist_turn turned message_to_row
  persist_turn_lem c u a w hu ha =
      let found_u = stored_has c u.conversation_id w.tables.conversations hu in
      let found_a = stored_has c a.conversation_id w.tables.conversations ha in
      (simp (quiet, found_u, found_a), simp (quiet, found_u, found_a))

-- no message belongs to a conversation that is not there
no_messages :
    (id : String) (cs : List StoredConversation) (ms : List MessageRow)
    → has convo_key id cs ≡ false
    → All (RefersTo cs) ms
    → All (λ m. (m.conversation_id == id) ≡ false) ms
no_messages id cs ms absent =
    All-imp (RefersTo cs) _
      (λ m h. ground (arith, eq_iff m.conversation_id id, ap (λ (k : String). has convo_key k cs)))
      ms

-- two new messages of a conversation that had none are all of its messages, in their order
select_two :
    (id : String) (ru ra : MessageRow) (ms : List MessageRow)
    → All (λ m. (m.conversation_id == id) ≡ false) ms
    → ru.conversation_id ≡ id
    → ra.conversation_id ≡ id
    → has message_key ru.message_id ms ≡ false
    → has message_key ra.message_id ms ≡ false
    → ru.message_id ≢ ra.message_id
    → select
        (λ m. m.conversation_id == id)
        (upsert message_key merge_message ra (upsert message_key merge_message ru ms))
      ≡ ru ∷ ra ∷ []
unfolding select
select_two id ru ra ms none_there hu ha new_u new_a differ =
    let p : MessageRow → Bool = λ m. m.conversation_id == id in
    let first_row = upsert_absent message_key merge_message ru ms new_u in
    let still_new : has message_key ra.message_id (upsert message_key merge_message ru ms) ≡ false =
      rw (has-upsert message_key merge_message (λ x r. refl) ra.message_id ru ms)
        (ground (arith, eq_iff ru.message_id ra.message_id)) in
    let second_row =
      upsert_absent message_key merge_message ra (upsert message_key merge_message ru ms)
        still_new in
    rw
      (
        second_row,
        first_row,
        select-append p (ms ++ ru ∷ []) (ra ∷ []),
        select-append p ms (ru ∷ []),
        select_none p ms none_there,
      )
      (ground (arith, eq_iff ru.conversation_id id, eq_iff ra.conversation_id id))

-- What hydrateConvo returns when no statement fails.
pub hydrate_convo_lem :
    (env : Env) (id : String) (w : World)
    → Quiet env
    → (hydrate_convo env id w).0
      ≡ ok (record {
        conversation = find convo_key id w.tables.conversations;
        messages = map row_to_message (order_by by_created (messages_of id w.tables));
      })
unfolding hydrate_convo messages_of
hydrate_convo_lem env id w quiet = simp quiet

order_by-two :
    (x y : MessageRow) → x.created_at ≤ y.created_at → order_by by_created (x ∷ y ∷ []) ≡ x ∷ y ∷ []
unfolding order_by insert_row
order_by-two x y h = ground arith

-- A turn that starts a conversation is read back as it was written: the conversation row, and the
-- two messages in their order, whatever else the store holds. Needed: the tables satisfy the
-- schema's constraints, the three ids are new and the messages carry the conversation's id, the
-- reply is not older than the prompt, and no statement fails.
pub hydrate-persist :
    (env : Env) (c : StoredConversation) (u a : StoredMessage) (w : World)
    → Quiet env
    → IsConsistent w.tables
    → u.conversation_id ≡ c.conversation_id
    → a.conversation_id ≡ c.conversation_id
    → has convo_key c.conversation_id w.tables.conversations ≡ false
    → has message_key u.message_id w.tables.messages ≡ false
    → has message_key a.message_id w.tables.messages ≡ false
    → u.message_id ≢ a.message_id
    → u.created_at ≤ a.created_at
    → (hydrate_convo env c.conversation_id (persist_turn env c u a w).1).0
      ≡ ok (record { conversation = some c; messages = u ∷ a ∷ [] })
unfolding messages_of turned message_to_row merged
hydrate-persist env c u a w quiet valid hu ha new_c new_u new_a differ older =
    let (_, after) = persist_turn_lem env quiet c u a w hu ha in
    let convo : find convo_key c.conversation_id
          (upsert convo_key merge_convo c w.tables.conversations)
        ≡ some c =
      rw
        (
          find-upsert convo_key merge_convo (λ x r. refl) c.conversation_id c
              w.tables.conversations,
          find_absent convo_key c.conversation_id w.tables.conversations new_c,
          eq_refl c.conversation_id,
        )
        refl in
    let rows =
      select_two c.conversation_id (message_to_row u) (message_to_row a) w.tables.messages
        (no_messages c.conversation_id w.tables.conversations w.tables.messages new_c
          valid.messages_refer)
        hu ha new_u new_a differ in
    rw (hydrate_convo_lem env c.conversation_id (persist_turn env c u a w).1 quiet, after, turned)
      (rw (convo, messages_of, rows, order_by-two (message_to_row u) (message_to_row a) older)
        (rw (row_to_message-message_to_row u, row_to_message-message_to_row a)))
