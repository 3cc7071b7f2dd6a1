-- ===== src/Store/Records/Laws.antt =====
-- store.worker.ts: what can be read after a change of memories, agents and skills, and after clearAll.
use caladon.Store.Records.{
  clear_all, get_agent, merge_agent, old_key, renames, upsert_agent, upsert_memory, merge_memory,
}
use caladon.Store.Tables.{agent_key, empty_tables, memory_key}
use caladon.Store.Rows.{StoredAgent, StoredMemory}
use caladon.Store.Action.Laws.{Quiet}
use caladon.Store.Action.{Env, World, ok}
use caladon.Prelude.{
  Bool-cases, Option, String, if◌then◌else◌, inl, inr, none, refl, some, ℕ, ◌&&◌, ◌+◌, ◌==◌, ◌≡◌,
  List, ◌∙◌, Bool, false, not, max, ◌/◌, arith, eq_iff, eq_refl,
}
use caladon.Table.{find, delete, upsert}
use caladon.Table.Laws.{find-upsert, merged, find-delete}

-- A memory's row, written at `now`: its token estimate is a quarter of the length, rounded up, and
-- at least 1.
abbrev pub memory_row : (String → ℕ) → String → String → ℕ → StoredMemory
memory_row text_length key value now = record {
  key = key;
  value = value;
  token_count = max 1 ((text_length value + 3) / 4);
  updated_at = now;
}

-- whether a key is that of the memory that a rename replaces
abbrev pub is_previous : Option String → String → Bool
is_previous none j = false
is_previous (some p) j = not (p == "") && p == j

is_previous_lem :
    (previous : Option String) (key j : String)
    → (key == j) ≡ false
    → is_previous previous j ≡ (renames previous key && old_key previous == j)
is_previous_lem none key j h = refl
is_previous_lem (some p) key j h = ground (arith, eq_iff p j, eq_iff p key, eq_iff key j, eq_refl j)

merged-new : (m : StoredMemory) (o : Option StoredMemory) → merged memory_key merge_memory m o ≡ m
unfolding merged
merged-new m none = refl
merged-new m (some x) = refl

find-insert :
    (j : String) (m : StoredMemory) (ms : List StoredMemory)
    → find memory_key j (upsert memory_key merge_memory m ms)
      ≡ (if m.key == j then some m else find memory_key j ms)
find-insert j m ms =
    rw (
      find-upsert memory_key merge_memory (λ x r. refl) j m ms,
      merged-new m (find memory_key j ms),
    )

-- the same with the tests of the code
found_after :
    (env : Env) (text_length : String → ℕ) (key value : String) (previous : Option String)
    (j : String) (w : World)
    → Quiet env
    → (now : ℕ) × ((upsert_memory env text_length key value previous w).0 ≡ ok tt)
      × (find memory_key j (upsert_memory env text_length key value previous w).1.tables.memories
          ≡ (if key == j
              then some (memory_row text_length key value now)
              else if renames previous key && old_key previous == j
              then none
              else find memory_key j w.tables.memories))
unfolding upsert_memory merged
found_after env text_length key value previous j w quiet =
    elim (Bool-cases (renames previous key)) [
      | inl yes_it ↦ (
        env.time (w.tick + 1 + 1),
        simp (quiet, yes_it),
        simp (quiet, yes_it)
            (rw (
              find-insert j (memory_row text_length key value (env.time (w.tick + 1 + 1)))
                  (delete memory_key (old_key previous) w.tables.memories),
              find-delete memory_key j (old_key previous) w.tables.memories,
            )),
      )
      | inr no_it ↦ (
        env.time (w.tick + 1),
        simp (quiet, no_it),
        simp (quiet, no_it)
            (rw (
              find-insert j (memory_row text_length key value (env.time (w.tick + 1)))
                w.tables.memories)),
      )
    ]

old_or_kept :
    (A B : Option StoredMemory) (previous : Option String) (key j : String)
    → (if key == j then A else if renames previous key && old_key previous == j then none else B)
      ≡ (if key == j then A else if is_previous previous j then none else B)
old_or_kept A B previous key j = elim (Bool-cases (key == j)) [
  | inl here ↦ rw here refl
  | inr other ↦ rw (other, is_previous_lem previous key j other) refl
]

-- Creating, overwriting or renaming a memory. Where no statement fails, afterwards the key has the
-- new value and its token estimate, a previous key that is not empty and differs from the key has
-- no row, and every other key has the row that it had.
pub find-upsert_memory :
    (env : Env) (text_length : String → ℕ) (key value : String) (previous : Option String)
    (j : String) (w : World)
    → Quiet env
    → (now : ℕ) × ((upsert_memory env text_length key value previous w).0 ≡ ok tt)
      × (find memory_key j (upsert_memory env text_length key value previous w).1.tables.memories
          ≡ (if key == j
              then some (memory_row text_length key value now)
              else if is_previous previous j
              then none
              else find memory_key j w.tables.memories))
find-upsert_memory env text_length key value previous j w quiet =
    let (now, returned, found) = found_after env text_length key value previous j w quiet in
    (now, returned, found ∙ old_or_kept _ _ previous key j)

-- Where no statement fails, clearAll leaves every table empty.
pub clear_all_lem :
    (env : Env) (w : World)
    → Quiet env
    → ((clear_all env w).0 ≡ ok tt) × ((clear_all env w).1.tables ≡ empty_tables)
unfolding clear_all
clear_all_lem env w quiet = (simp quiet, simp quiet)

-- an agent as it is stored over what was there: its creation time stays
abbrev pub stored_over : StoredAgent → Option StoredAgent → StoredAgent
stored_over a none = a
stored_over a (some old) = record a { created_at = old.created_at }

merged-agent :
    (a : StoredAgent) (o : Option StoredAgent) → merged agent_key merge_agent a o ≡ stored_over a o
unfolding merged
merged-agent a none = refl
merged-agent a (some old) = refl

-- Storing an agent and reading one back: another id reads as before, and the stored id reads as the
-- new agent with the creation time of the one that it replaces, if there was one.
pub get_agent-upsert_agent :
    (env : Env) (a : StoredAgent) (id : String) (w : World)
    → Quiet env
    → (get_agent env id (upsert_agent env a w).1).0
      ≡ ok (
          if a.agent_id == id
          then some (stored_over a (find agent_key id w.tables.agents))
          else find agent_key id w.tables.agents)
unfolding get_agent upsert_agent
get_agent-upsert_agent env a id w quiet = simp quiet (
    rw (
      find-upsert agent_key merge_agent (λ x r. refl) id a w.tables.agents,
      merged-agent a (find agent_key id w.tables.agents),
    ))
