-- ===== src/Tests/Store.antt =====
-- The device store on small tables.
use caladon.Store.Fork.Lineage.{IsLineage}
use caladon.Store.Fork.Lineage.{lineage_of-IsLineage}
use caladon.Store.Fork.{lineage_of, stored_key}
use caladon.Store.Records.{upsert_memory, get_agent, upsert_agent, clear_all}
use caladon.Store.Tables.{IsConsistent}
use caladon.Prelude.{eq_iff}
use caladon.Store.Turns.RoundTrip.{hydrate-persist}
use caladon.Store.Turns.Cursor.{list_convos-next, IsContinued, list_convos_skips_tie}
use caladon.Store.Records.Laws.{
  clear_all_lem, find-upsert_memory, get_agent-upsert_agent, memory_row, is_previous, stored_over,
}
use caladon.Store.Vectors.RoundTrip.{stored_vectors, vectors_of, vectors_of-store_vectors}
use caladon.Store.History.{after, created, persisted, Reachable-IsConsistent}
use caladon.Store.Rows.{StoredAgent, StoredConversation, StoredMessage, VectorChunk}
use caladon.Store.Action.Laws.{Quiet, tx_atomic}
use caladon.Store.Turns.Pages.{IsPage, list_convos-IsPage}
use caladon.Store.Turns.Deletion.{IsDeleted, delete_convo-IsDeleted, persist_turn-foreign_key}
use caladon.Store.Tables.{IsConsistent-empty, Tables, agent_key, empty_tables, memory_key}
use caladon.Store.Action.{Env, World, foreign_key, ok, throw, tx, unique, Action}
use caladon.Prelude.{
  ℕ, String, Bool, true, false, none, some, List, [], ◌∷◌, ◌≡◌, ◌≢◌, refl, arith, if◌then◌else◌,
  ◌==◌,
}
use caladon.Store.Turns.{
  convo_page, persist_turn, hydrate_convo, list_convos, delete_convo, convo_rows, ConvoPage,
  last_updated,
}
use caladon.Store.Vectors.{store_vectors}
use caladon.Table.{insert_row, select, find, order_by, has}

-- An engine without faults, a clock that counts, and JSON with one text for every value.
abbrev quiet_env : Env
quiet_env = record {
  fault = λ n. false;
  time = λ n. n;
  fresh_id = λ n. "fresh";
  parse_json = λ s. none;
  stringify = λ j. "{}";
  text_le = λ a b. true;
}

quiet_env-Quiet : Quiet quiet_env
quiet_env-Quiet n = refl

abbrev convo_at : String → ℕ → StoredConversation
convo_at id now = record {
  conversation_id = id;
  title = none;
  endpoint = none;
  model = none;
  created_at = now;
  updated_at = now;
  convo_json = "{}";
}

abbrev message_at : String → String → Bool → ℕ → StoredMessage
message_at id convo mine now = record {
  message_id = id;
  conversation_id = convo;
  parent_message_id = none;
  is_created_by_user = mine;
  text = id;
  content_json = none;
  model = none;
  created_at = now;
  updated_at = now;
}

abbrev fresh : World
fresh = record { tables = empty_tables; tick = 0 }

abbrev listing : List StoredConversation → World
listing cs = record { tables = record empty_tables { conversations = cs }; tick = 0 }

differ : (a b : String) → (a == b) ≡ false → a ≢ b
differ a b e h = ground (arith, eq_iff a b)

hydrate-persist_example :
    (hydrate_convo quiet_env "c"
      (persist_turn quiet_env
        (convo_at "c" 5)
        (message_at "m1" "c" true 5)
        (message_at "m2" "c" false 6)
        fresh).1).0
    ≡ ok (record {
      conversation = some (convo_at "c" 5);
      messages = message_at "m1" "c" true 5 ∷ message_at "m2" "c" false 6 ∷ [];
    })
unfolding has
hydrate-persist_example =
    hydrate-persist quiet_env (convo_at "c" 5) (message_at "m1" "c" true 5)
      (message_at "m2" "c" false 6) fresh quiet_env-Quiet IsConsistent-empty refl refl refl refl
      refl (differ "m1" "m2" refl) (omega arith)

-- It writes a row and then throws.
abbrev write_then_throw : Action ℕ
write_then_throw w = (throw unique, listing (convo_at "c" 1 ∷ []))

tx_atomic_example : (tx quiet_env write_then_throw fresh).1.tables ≡ empty_tables
tx_atomic_example = tx_atomic quiet_env write_then_throw fresh unique (unfold tx in refl)

Reachable-IsConsistent_example :
    IsConsistent
      (persist_turn quiet_env
        (convo_at "c" 5)
        (message_at "m1" "c" true 5)
        (message_at "m2" "c" false 6)
        fresh).1.tables
Reachable-IsConsistent_example =
    Reachable-IsConsistent quiet_env
      (persist_turn quiet_env (convo_at "c" 5) (message_at "m1" "c" true 5)
        (message_at "m2" "c" false 6) fresh).1
      (after fresh _ (created 0) (
        persisted (convo_at "c" 5) (message_at "m1" "c" true 5) (message_at "m2" "c" false 6)
          fresh))

persist_turn-foreign_key_example :
    ((persist_turn quiet_env
        (convo_at "c" 5)
        (message_at "m1" "d" true 5)
        (message_at "m2" "c" false 6)
        fresh).0
      ≡ throw foreign_key)
    × ((persist_turn quiet_env
          (convo_at "c" 5)
          (message_at "m1" "d" true 5)
          (message_at "m2" "c" false 6)
          fresh).1.tables
        ≡ empty_tables)
unfolding has
persist_turn-foreign_key_example =
    persist_turn-foreign_key quiet_env (convo_at "c" 5) (message_at "m1" "d" true 5)
      (message_at "m2" "c" false 6) fresh quiet_env-Quiet (differ "c" "d" refl) refl

list_convos-IsPage_example :
    (p : ConvoPage) × ((list_convos quiet_env 1
        (some 5)
        (listing (convo_at "a" 3 ∷ convo_at "b" 4 ∷ []))).0
      ≡ ok p)
    × IsPage 1 (some 5) p
list_convos-IsPage_example =
    list_convos-IsPage quiet_env 1 (some 5) (listing (convo_at "a" 3 ∷ convo_at "b" 4 ∷ []))
      quiet_env-Quiet

abbrev two_convos : Tables
two_convos = (listing (convo_at "a" 3 ∷ convo_at "b" 4 ∷ [])).tables

abbrev page_one : ConvoPage
page_one = record { conversations = convo_at "b" 4 ∷ []; next_cursor = some 4 }

abbrev page_two : ConvoPage
page_two = record { conversations = convo_at "a" 3 ∷ []; next_cursor = none }

list_convos-next_example : IsContinued 1 9 two_convos.conversations page_one page_two
unfolding list_convos convo_rows convo_page order_by insert_row select last_updated
list_convos-next_example =
    list_convos-next quiet_env 1 9 3 (listing (convo_at "a" 3 ∷ convo_at "b" 4 ∷ []))
      (listing (convo_at "a" 3 ∷ convo_at "b" 4 ∷ [])) page_one page_two quiet_env-Quiet refl
      (((omega arith), tt), (tt, tt)) refl refl refl

list_convos_skips_tie_example :
    ((list_convos quiet_env 1 none (listing (convo_at "a" 4 ∷ convo_at "b" 4 ∷ []))).0
      ≡ ok (record { conversations = convo_at "a" 4 ∷ []; next_cursor = some 4 }))
    × ((list_convos quiet_env 1 (some 4) (listing (convo_at "a" 4 ∷ convo_at "b" 4 ∷ []))).0
        ≡ ok (record { conversations = []; next_cursor = none }))
list_convos_skips_tie_example =
    list_convos_skips_tie quiet_env (convo_at "a" 4) (convo_at "b" 4) 3
      (listing (convo_at "a" 4 ∷ convo_at "b" 4 ∷ [])) quiet_env-Quiet refl refl refl

delete_convo-IsDeleted_example :
    ((delete_convo quiet_env "a" (listing (convo_at "a" 3 ∷ convo_at "b" 4 ∷ []))).0 ≡ ok tt)
    × IsDeleted "a" "b" two_convos
        (delete_convo quiet_env "a" (listing (convo_at "a" 3 ∷ convo_at "b" 4 ∷ []))).1.tables
delete_convo-IsDeleted_example =
    delete_convo-IsDeleted quiet_env "a" "b" (listing (convo_at "a" 3 ∷ convo_at "b" 4 ∷ []))
      quiet_env-Quiet (differ "a" "b" refl)

abbrev one_chunk : List VectorChunk
one_chunk = record { text = "chunk"; vec = record { b0 = 0; b1 = 0; b2 = 128; b3 = 63 } ∷ [] } ∷ []

vectors_of-store_vectors_example :
    ((store_vectors quiet_env "m" one_chunk fresh).0 ≡ ok tt)
    × (vectors_of "m" (store_vectors quiet_env "m" one_chunk fresh).1.tables
        ≡ stored_vectors "m" 0 one_chunk)
    × (vectors_of "n" (store_vectors quiet_env "m" one_chunk fresh).1.tables
        ≡ vectors_of "n" empty_tables)
vectors_of-store_vectors_example =
    vectors_of-store_vectors quiet_env "m" "n" one_chunk fresh quiet_env-Quiet (differ "m" "n" refl)

abbrev remembering : World
remembering = record {
  tables = record empty_tables {
    memories = record { key = "old"; value = "v"; token_count = 1; updated_at = 0 } ∷ [];
  };
  tick = 0;
}

find-upsert_memory_example :
    (now : ℕ) × ((upsert_memory quiet_env (λ s. 4) "new" "v" (some "old") remembering).0 ≡ ok tt)
    × (find memory_key "old"
          (upsert_memory quiet_env (λ s. 4) "new" "v" (some "old") remembering).1.tables.memories
        ≡ (if "new" == "old"
            then some (memory_row (λ s. 4) "new" "v" now)
            else if is_previous (some "old") "old"
            then none
            else find memory_key "old" remembering.tables.memories))
find-upsert_memory_example =
    find-upsert_memory quiet_env (λ s. 4) "new" "v" (some "old") "old" remembering quiet_env-Quiet

abbrev agent_at : String → ℕ → StoredAgent
agent_at id now = record {
  agent_id = id;
  name = id;
  description = none;
  instructions = none;
  model = none;
  provider = none;
  tools = none;
  config_json = "{}";
  created_at = now;
  updated_at = now;
}

abbrev hiring : World
hiring = record { tables = record empty_tables { agents = agent_at "a" 1 ∷ [] }; tick = 0 }

get_agent-upsert_agent_example :
    (get_agent quiet_env "a" (upsert_agent quiet_env (agent_at "a" 2) hiring).1).0
    ≡ ok (
        if "a" == "a"
        then some (stored_over (agent_at "a" 2) (find agent_key "a" (agent_at "a" 1 ∷ [])))
        else find agent_key "a" (agent_at "a" 1 ∷ []))
get_agent-upsert_agent_example =
    get_agent-upsert_agent quiet_env (agent_at "a" 2) "a" hiring quiet_env-Quiet

clear_all_lem_example :
    ((clear_all quiet_env hiring).0 ≡ ok tt)
    × ((clear_all quiet_env hiring).1.tables ≡ empty_tables)
clear_all_lem_example = clear_all_lem quiet_env hiring quiet_env-Quiet

abbrev thread : List StoredMessage
thread =
    message_at "m1" "c" true 1
    ∷ record (message_at "m2" "c" false 2) { parent_message_id = some "m1" }
    ∷ record (message_at "m3" "c" true 3) { parent_message_id = some "m2" }
    ∷ []

lineage_of-IsLineage_example :
    IsLineage thread (find stored_key "m2" thread) (lineage_of thread "m2")
lineage_of-IsLineage_example = lineage_of-IsLineage thread "m2"
