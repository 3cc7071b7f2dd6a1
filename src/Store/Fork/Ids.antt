-- ===== src/Store/Fork/Ids.antt =====
-- store.worker.ts, forkConversation: the new ids of the copied messages.
use caladon.Store.Action.{next}
use caladon.Store.Fork.{forked_message}
use caladon.Table.Laws.{upsert_absent}
use caladon.Store.Tables.{Tables, convo_key, message_key}
use caladon.Store.Action.Laws.{Quiet}
use caladon.Store.Action.{Env, World, ok}
use caladon.Store.Fork.{map_get, new_ids, upsert_all, stored_key}
use caladon.Store.Turns.{merge_message}
use caladon.Store.Rows.{StoredMessage, MessageRow, message_to_row, StoredConversation}
use caladon.Table.{has, IsKeyed, upsert}
use caladon.Prelude.{
  ℕ, ◌+◌, ◌≡◌, refl, ap, ◌∙◌, String, ◌==◌, eq_iff, eq_refl, true, false, some, List, [], ◌∷◌, ◌++◌,
  map, append_assoc, append-nil, arith, All, ◌<◌,
}

-- What new_ids returns when it is called at the tick `n`.
unfoldable pub pairs : Env → ℕ → List StoredMessage → List (String × String)
pairs env n [] = []
pairs env n (m ∷ ms) = (m.message_id, env.fresh_id n) ∷ pairs env (n + 1) ms

pub new_ids_lem :
    (env : Env) (ms : List StoredMessage) (w : World)
    → ((new_ids env ms w).0 ≡ ok (pairs env w.tick ms)) × ((new_ids env ms w).1.tables ≡ w.tables)
unfolding new_ids pairs
new_ids_lem env [] w = (refl, refl)
new_ids_lem env (m ∷ ms) w =
    let (returned, same) = new_ids_lem env ms (next w) in (simp returned, simp returned same)

-- The ids of the messages are mapped to the fresh ids from `n` on, in their order.
abbrev pub Renamed : Env → List (String × String) → ℕ → List StoredMessage → Type 0
Renamed env ids n [] = Unit
Renamed env ids n (m ∷ ms) =
    (map_get m.message_id ids ≡ some (env.fresh_id n)) × Renamed env ids (n + 1) ms

Renamed-cons :
    (env : Env) (k v : String) (ids : List (String × String)) (n : ℕ) (ms : List StoredMessage)
    → has stored_key k ms ≡ false
    → Renamed env ids n ms
    → Renamed env ((k, v) ∷ ids) n ms
unfolding has map_get
Renamed-cons env k v ids n [] new h = tt
Renamed-cons env k v ids n (m ∷ ms) new h = (
  ground (arith, eq_iff k m.message_id, eq_iff m.message_id k, h.0),
  Renamed-cons env k v ids (n + 1) ms (ground arith) h.1,
)

pub pairs-Renamed :
    (env : Env) (n : ℕ) (ms : List StoredMessage)
    → IsKeyed stored_key ms
    → Renamed env (pairs env n ms) n ms
unfolding pairs map_get
pairs-Renamed env n [] keyed = tt
pairs-Renamed env n (m ∷ ms) keyed = (
  rw (eq_refl m.message_id),
  Renamed-cons env m.message_id (env.fresh_id n) (pairs env (n + 1) ms) (n + 1) ms keyed.0
      (pairs-Renamed env (n + 1) ms keyed.1),
)

-- A random id is never drawn again, and no row has it.
pub record IsFresh (env : Env) (t : Tables) : Type 0 where
  pub once : (m n : ℕ) → env.fresh_id m ≡ env.fresh_id n → m ≡ n
  pub no_convo : (n : ℕ) → has convo_key (env.fresh_id n) t.conversations ≡ false
  pub no_message : (n : ℕ) → has message_key (env.fresh_id n) t.messages ≡ false

has-snoc :
    (k : String) (rs : List MessageRow) (r : MessageRow)
    → has message_key k rs ≡ false
    → (r.message_id == k) ≡ false
    → has message_key k (rs ++ r ∷ []) ≡ false
unfolding has
has-snoc k [] r h e = ground arith
has-snoc k (x ∷ rs) r h e = ground (arith, has-snoc k rs r)

-- No row has the id of one of the messages.
abbrev pub Absent : List MessageRow → StoredMessage → Type 0
Absent rs m = has message_key m.message_id rs ≡ false

Absent-snoc :
    (rs : List MessageRow) (r : MessageRow) (ms : List StoredMessage)
    → has stored_key r.message_id ms ≡ false
    → All (Absent rs) ms
    → All (Absent (rs ++ r ∷ [])) ms
unfolding has
Absent-snoc rs r [] new h = tt
Absent-snoc rs r (m ∷ ms) new h = (
  has-snoc m.message_id rs r h.0
      (ground (arith, eq_iff r.message_id m.message_id, eq_iff m.message_id r.message_id)),
  Absent-snoc rs r ms (ground arith) h.1,
)

pub upsert_all_lem :
    (env : Env) (ms : List StoredMessage) (w : World)
    → Quiet env
    → All (λ m. has convo_key m.conversation_id w.tables.conversations ≡ true) ms
    → All (Absent w.tables.messages) ms
    → IsKeyed stored_key ms
    → ((upsert_all env ms w).0 ≡ ok tt)
      × ((upsert_all env ms w).1.tables
          ≡ record w.tables { messages = w.tables.messages ++ map message_to_row ms })
unfolding upsert_all message_to_row
upsert_all_lem env [] w quiet refers absent keyed = (refl, rw append-nil)
upsert_all_lem env (m ∷ ms) w quiet refers absent keyed =
    let appended : upsert message_key merge_message (message_to_row m) w.tables.messages
        ≡ w.tables.messages ++ message_to_row m ∷ [] =
      upsert_absent message_key merge_message (message_to_row m) w.tables.messages absent.0 in
    let (returned, left) =
      upsert_all_lem env ms
        (record (next w) {
          tables = record w.tables { messages = w.tables.messages ++ message_to_row m ∷ [] };
        })
        quiet refers.1 (Absent-snoc w.tables.messages (message_to_row m) ms keyed.0 absent.1)
        keyed.1 in
    (
      simp (quiet, refers.0, appended) returned,
      simp (quiet, refers.0, appended)
          (left
            ∙ ap (λ (l : List MessageRow). record w.tables { messages = l })
                (append_assoc w.tables.messages (message_to_row m ∷ []) (map message_to_row ms))),
    )

module _ (env : Env) (t : Tables) (fresh : IsFresh env t) (ids : List (String × String))
    (new : String) (now : ℕ) where
  pub forked-refers :
      (cs : List StoredConversation) (ms : List StoredMessage)
      → has convo_key new cs ≡ true
      → All (λ m. has convo_key m.conversation_id cs ≡ true) (map (forked_message ids new now) ms)
  unfolding forked_message
  forked-refers cs [] h = tt
  forked-refers cs (m ∷ ms) h = (h, forked-refers cs ms h)

  pub forked-Absent :
      (n : ℕ) (ms : List StoredMessage)
      → Renamed env ids n ms
      → All (Absent t.messages) (map (forked_message ids new now) ms)
  unfolding forked_message
  forked-Absent n [] h = tt
  forked-Absent n (m ∷ ms) h = (rw h.0 (fresh.no_message n), forked-Absent (n + 1) ms h.1)

  forked_unused :
      (j n : ℕ) (ms : List StoredMessage)
      → j < n
      → Renamed env ids n ms
      → has stored_key (env.fresh_id j) (map (forked_message ids new now) ms) ≡ false
  unfolding forked_message has
  forked_unused j n [] less h = refl
  forked_unused j n (m ∷ ms) less h =
      rw (h.0, forked_unused j (n + 1) ms (omega arith) h.1)
        (ground (arith, eq_iff (env.fresh_id n) (env.fresh_id j), fresh.once n j))

  pub forked-IsKeyed :
      (n : ℕ) (ms : List StoredMessage)
      → Renamed env ids n ms
      → IsKeyed stored_key (map (forked_message ids new now) ms)
  forked-IsKeyed n [] h = tt
  forked-IsKeyed n (m ∷ ms) h = (
    unfold forked_message in rw h.0 (forked_unused n (n + 1) ms (omega arith) h.1),
    forked-IsKeyed (n + 1) ms h.1,
  )
