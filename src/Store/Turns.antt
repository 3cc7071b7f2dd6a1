-- ===== src/Store/Turns.antt =====
-- store.worker.ts, conversations and messages: upsertConvo, upsertMessage, persistTurn,
-- hydrateConvo, listConvos and deleteConvo.
pub mod RoundTrip
pub mod Pages
pub mod Cursor
pub mod Deletion
use caladon.Prelude.{
  ℕ, zero, suc, ◌+◌, String, ◌==◌, Bool, Option, none, some, List, [], ◌∷◌, map, length, take, min,
  max, ltb, leb, if◌then◌else◌,
}
use caladon.Table.{select, delete_where, order_by, find, has, upsert, delete}
use caladon.Store.Rows.{
  StoredConversation, StoredMessage, MessageRow, row_to_message, message_to_row,
}
use caladon.Store.Tables.{Tables, convo_key, message_key}
use caladon.Store.Action.{
  Env, Outcome, ok, throw, foreign_key, Action, pure, ◌>>=◌, ◌>>◌, run, query, tx,
}

-- ON CONFLICT(conversationId) DO UPDATE SET: every column but the key and createdAt.
abbrev pub merge_convo : StoredConversation → StoredConversation → StoredConversation
merge_convo old new = record new { created_at = old.created_at }

-- ON CONFLICT(messageId) DO UPDATE SET: every column but the key and createdAt.
abbrev pub merge_message : MessageRow → MessageRow → MessageRow
merge_message old new = record new { created_at = old.created_at }

unfoldable pub insert_convo : StoredConversation → Tables → Outcome Tables
insert_convo c t = ok (record t { conversations = upsert convo_key merge_convo c t.conversations })

-- The foreign key is checked when the statement ends.
unfoldable pub insert_message : MessageRow → Tables → Outcome Tables
insert_message r t =
    if has convo_key r.conversation_id t.conversations
    then ok (record t { messages = upsert message_key merge_message r t.messages })
    else throw foreign_key

-- DELETE FROM conversations WHERE conversationId = ?, with ON DELETE CASCADE into messages.
unfoldable pub remove_convo : String → Tables → Outcome Tables
remove_convo id t = ok (record t {
  conversations = delete convo_key id t.conversations;
  messages = delete_where (λ m. m.conversation_id == id) t.messages;
})

-- SELECT * FROM messages WHERE conversationId = ?
unfoldable pub messages_of : String → Tables → List MessageRow
messages_of id t = select (λ m. m.conversation_id == id) t.messages

-- ORDER BY createdAt ASC, rowid ASC
abbrev pub by_created : MessageRow → MessageRow → Bool
by_created a b = leb a.created_at b.created_at

-- ORDER BY updatedAt DESC; SQL leaves the order of equal rows open, here it is that of the rowids.
abbrev pub by_updated_desc : StoredConversation → StoredConversation → Bool
by_updated_desc a b = leb b.updated_at a.updated_at

pub record HydratedConvo : Type 0 where
  pub conversation : Option StoredConversation
  pub messages : List StoredMessage

-- `nextCursor` is null when there is no further page.
pub record ConvoPage : Type 0 where
  pub conversations : List StoredConversation
  pub next_cursor : Option ℕ

unfoldable pub last_updated : List StoredConversation → Option ℕ
last_updated [] = none
last_updated (c ∷ []) = some c.updated_at
last_updated (c ∷ d ∷ cs) = last_updated (d ∷ cs)

-- Math.max(1, Math.min(limit, 200))
abbrev pub convo_limit : ℕ → ℕ
convo_limit limit = max 1 (min limit 200)

-- The two queries of listConvos. A cursor of 0 is falsy, so it selects the first page.
unfoldable pub convo_rows : Option ℕ → ℕ → Tables → List StoredConversation
convo_rows none n t = take n (order_by by_updated_desc t.conversations)
convo_rows (some zero) n t = take n (order_by by_updated_desc t.conversations)
convo_rows (some (suc k)) n t =
    take n (order_by by_updated_desc (select (λ c. ltb c.updated_at (suc k)) t.conversations))

unfoldable pub convo_page : ℕ → List StoredConversation → ConvoPage
unfolding last_updated
convo_page lim rows =
    if ltb lim (length rows)
    then record { conversations = take lim rows; next_cursor = last_updated (take lim rows) }
    else record { conversations = rows; next_cursor = none }

module _ (env : Env) where
  unfoldable pub upsert_convo : StoredConversation → Action (Unit {0})
  unfolding insert_convo run
  upsert_convo c = run env (insert_convo c)

  unfoldable pub upsert_message : StoredMessage → Action (Unit {0})
  unfolding insert_message message_to_row run
  upsert_message m = run env (insert_message (message_to_row m))

  unfoldable pub persist_turn :
      StoredConversation → StoredMessage → StoredMessage → Action (Unit {0})
  unfolding upsert_convo upsert_message tx
  persist_turn c user_msg assistant_msg =
      tx env (do upsert_convo c; upsert_message user_msg; upsert_message assistant_msg)

  unfoldable pub hydrate_convo : String → Action HydratedConvo
  unfolding query find messages_of
  hydrate_convo id = do
    conversation ← query env (λ t. find convo_key id t.conversations)
    rows ← query env (λ t. order_by by_created (messages_of id t))
    pure (record { conversation = conversation; messages = map row_to_message rows })

  unfoldable pub list_convos : ℕ → Option ℕ → Action ConvoPage
  unfolding query convo_rows convo_page
  list_convos limit cursor = do
    rows ← query env (convo_rows cursor (convo_limit limit + 1))
    pure (convo_page (convo_limit limit) rows)

  unfoldable pub delete_convo : String → Action (Unit {0})
  unfolding run remove_convo
  delete_convo id = run env (remove_convo id)
