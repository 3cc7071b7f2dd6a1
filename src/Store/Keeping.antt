-- ===== src/Store/Keeping.antt =====
-- store.worker.ts: what the statements on conversations, messages and embeddings keep is kept by
-- every operation that is built of them.
pub mod Reads
use caladon.Prelude.{arith, ℕ, suc, String, Option, none, some, List, [], ◌∷◌}
use caladon.Store.Rows.{
  StoredConversation, StoredMessage, MessageRow, EmbeddingRow, VectorChunk, message_to_row,
}
use caladon.Store.Tables.{Tables}
use caladon.Store.Action.{
  Env, Json, Items, Fields, nil, cons, Outcome, ok, throw, Failure, run, random_id, type_error,
  fail,
}
use caladon.Store.Action.Keeps.{
  Keeps, Preserves, Keeps-bind, Keeps-run, Keeps-pure, Keeps-random_id, Keeps-date_now, Keeps-tx,
  keeps_rules,
}
use caladon.Store.Turns.{
  insert_convo, insert_message, remove_convo, upsert_convo, upsert_message, persist_turn,
  delete_convo,
}
use caladon.Store.Fork.{new_ids, upsert_all, fork_body, fork_conversation}
use caladon.Store.Vectors.{delete_vectors, insert_vector, chunk_row, insert_chunks, store_vectors}
use caladon.Store.Import.{
  Dynamic, get_field, record_fields, member_fields, items_or_none, bound_statement, imported_convo,
  imported_message, id_or_random, convo_id_field, import_message, import_messages, import_convo,
  import_convos, convos_of, import_chat_export,
}

-- The statements that the chat's operations are built of keep `P`.
pub record ChatKept (P : Tables → Type 0) : Type 0 where
  pub insert_convo_kept : (c : StoredConversation) → Preserves P (insert_convo c)
  pub insert_message_kept : (r : MessageRow) → Preserves P (insert_message r)
  pub remove_convo_kept : (id : String) → Preserves P (remove_convo id)
  pub delete_vectors_kept : (owner : String) → Preserves P (delete_vectors owner)
  pub insert_vector_kept : (r : EmbeddingRow) → Preserves P (insert_vector r)

bound_statement-Preserves :
    {A : Type 0} (P : Tables → Type 0) (s : A → Tables → Outcome Tables) (r : Outcome A)
    → ((a : A) → Preserves P (s a))
    → Preserves P (bound_statement s r)
unfolding bound_statement
bound_statement-Preserves P s (ok a) ps = record { at = (ps a).at }
bound_statement-Preserves P s (throw e) ps = record { at = λ t u h k. absurd (ground arith) }

fail-Keeps : {A : Type 0} {P : Tables → Type 0} (e : Failure) → Keeps P (fail {A = A} e)
fail-Keeps e = record { at = λ w h. h }

module _ {P : Tables → Type 0} (k : ChatKept P) (env : Env) where
  upsert_convo_kept : (c : StoredConversation) → Keeps P (upsert_convo env c)
  unfolding upsert_convo
  upsert_convo_kept c = search (keeps_rules, k.insert_convo_kept)

  upsert_message_kept : (m : StoredMessage) → Keeps P (upsert_message env m)
  unfolding upsert_message
  upsert_message_kept m = search (keeps_rules, k.insert_message_kept)

  pub persist_turn_kept :
      (c : StoredConversation) (u a : StoredMessage) → Keeps P (persist_turn env c u a)
  unfolding persist_turn
  persist_turn_kept c u a = search (keeps_rules, upsert_convo_kept, upsert_message_kept) depth 8

  pub delete_convo_kept : (id : String) → Keeps P (delete_convo env id)
  unfolding delete_convo
  delete_convo_kept id = search (keeps_rules, k.remove_convo_kept)

  new_ids_kept : (ms : List StoredMessage) → Keeps P (new_ids env ms)
  unfolding new_ids
  new_ids_kept [] = search keeps_rules
  new_ids_kept (m ∷ ms) = Keeps-bind (random_id env) _ (Keeps-random_id env) (λ id.
      Keeps-bind (new_ids env ms) _ (new_ids_kept ms)
        (λ ids. Keeps-pure ((m.message_id, id) ∷ ids)))

  upsert_all_kept : (ms : List StoredMessage) → Keeps P (upsert_all env ms)
  unfolding upsert_all
  upsert_all_kept [] = search keeps_rules
  upsert_all_kept (m ∷ ms) =
      Keeps-bind (upsert_message env m) _ (upsert_message_kept m) (λ _. upsert_all_kept ms)

  fork_body_kept : (id from : String) → Keeps P (fork_body env id from)
  unfolding fork_body
  fork_body_kept id from =
      search (keeps_rules, upsert_convo_kept, new_ids_kept, upsert_all_kept) depth 12

  pub fork_conversation_kept : (id from : String) → Keeps P (fork_conversation env id from)
  unfolding fork_conversation
  fork_conversation_kept id from = search (keeps_rules, fork_body_kept)

  insert_chunks_kept :
      (owner : String) (ord : ℕ) (cs : List VectorChunk) → Keeps P (insert_chunks env owner ord cs)
  unfolding insert_chunks
  insert_chunks_kept owner ord [] = search keeps_rules
  insert_chunks_kept owner ord (c ∷ cs) =
      Keeps-bind (run env (insert_vector (chunk_row owner ord c))) _
        (Keeps-run env (insert_vector (chunk_row owner ord c))
          (k.insert_vector_kept (chunk_row owner ord c)))
        (λ _. insert_chunks_kept owner (suc ord) cs)

  pub store_vectors_kept :
      (owner : String) (cs : List VectorChunk) → Keeps P (store_vectors env owner cs)
  unfolding store_vectors
  store_vectors_kept owner cs =
      search (keeps_rules, k.delete_vectors_kept, insert_chunks_kept) depth 8

  module _ (d : Dynamic) where
    id_or_random_kept : (v : Option Json) → Keeps P (id_or_random d env v)
    unfolding id_or_random
    id_or_random_kept none = Keeps-random_id env
    id_or_random_kept (some j) = Keeps-pure _

    import_message_kept :
        (convo : String) (now : ℕ) (fs : Option Fields)
        → Keeps P (import_message d env convo now fs)
    unfolding import_message
    import_message_kept convo now none = fail-Keeps type_error
    import_message_kept convo now (some fs) =
        Keeps-bind _ _ (id_or_random_kept (get_field "messageId" fs)) (λ id. Keeps-run env _ (
          bound_statement-Preserves P (λ m. insert_message (message_to_row m))
            (imported_message d env id convo now fs)
            (λ m. k.insert_message_kept (message_to_row m))))

    import_messages_kept :
        (convo : String) (now : ℕ) (ms : Items) → Keeps P (import_messages d env convo now ms)
    unfolding import_messages
    import_messages_kept convo now nil = Keeps-pure tt
    import_messages_kept convo now (cons m ms) =
        Keeps-bind _ _ (import_message_kept convo now (member_fields m))
          (λ _. import_messages_kept convo now ms)

    import_convo_kept : (raw : Json) (fs : Option Fields) → Keeps P (import_convo d env raw fs)
    unfolding import_convo
    import_convo_kept raw none = Keeps-pure tt
    import_convo_kept raw (some fs) =
        Keeps-bind _ _ (id_or_random_kept (convo_id_field d env fs)) (λ id.
          Keeps-bind _ _ (Keeps-date_now env) (λ now.
            Keeps-bind _ _
              (Keeps-run env _ (
                bound_statement-Preserves P insert_convo (imported_convo d env id now raw fs)
                  k.insert_convo_kept))
              (λ _. import_messages_kept id now (items_or_none (get_field "messages" fs)))))

    import_convos_kept : (xs : Items) → Keeps P (import_convos d env xs)
    unfolding import_convos
    import_convos_kept nil = Keeps-pure tt
    import_convos_kept (cons raw rest) =
        Keeps-bind _ _ (import_convo_kept raw (record_fields raw)) (λ _. import_convos_kept rest)

    pub import_chat_export_kept : (json : Json) → Keeps P (import_chat_export d env json)
    unfolding import_chat_export
    import_chat_export_kept json = Keeps-tx env _ (import_convos_kept (convos_of d env json))
