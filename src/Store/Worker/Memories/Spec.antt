-- ===== src/Store/Worker/Memories/Spec.antt =====
-- store.worker.ts: what the requests do to the memories, as a map from keys to values.
use caladon.Prelude.{
  ◌≡◌, refl, ap, String, ◌==◌, Bool, true, false, if◌then◌else◌, Option, none, some, List, [], ◌∷◌,
}
use caladon.Table.{find}
use caladon.Store.Rows.{StoredMemory}
use caladon.Store.Tables.{Tables, memory_key}
use caladon.Store.Requests.{StoreRequest, upsert_memory, delete_memory, clear_all}
use caladon.Store.Records.Laws.{is_previous}

-- The abstract memories: the value of each key that has one.
abbrev pub Notes : Type 0
Notes = String → Option String

-- What each request does to them.
unfoldable pub note_step : StoreRequest → Notes → Notes
note_step (upsert_memory r) notes k =
    if r.key == k then some r.value else if is_previous r.previous_key k then none else notes k
note_step (delete_memory r) notes k = if r.key == k then none else notes k
note_step (clear_all r) notes k = none
note_step _ notes k = notes k

unfoldable pub note_run : List StoreRequest → Notes → Notes
note_run [] notes = notes
note_run (req ∷ reqs) notes = note_run reqs (note_step req notes)

pub note_run_ext :
    (reqs : List StoreRequest) (m n : Notes)
    → ((k : String) → m k ≡ n k)
    → (k : String) → note_run reqs m k ≡ note_run reqs n k
note_run_ext reqs m n h k = ap (λ f. note_run reqs f k) (λ i j. h j i)

abbrev pub value_of : Option StoredMemory → Option String
value_of none = none
value_of (some m) = some m.value

-- The memories that the tables hold.
abbrev pub notes_of : Tables → Notes
notes_of t k = value_of (find memory_key k t.memories)

pub value_of-if :
    (b : Bool) (o p : Option StoredMemory)
    → value_of (if b then o else p) ≡ (if b then value_of o else value_of p)
value_of-if true o p = refl
value_of-if false o p = refl
