-- ===== src/Store/Worker.antt =====
-- store.worker.ts: the worker's state and init. SQLite, its ciphers and its file system are a
-- parameter, the record Engine. A call of the engine takes the next of its answers.
pub mod Handler
pub mod Answers
pub mod Triples
pub mod Soundness
pub mod Dispatch
pub mod Invariant
pub mod Memories
pub mod Opening
use Prim.Native.String.{◌++◌ as text_append}
use caladon.Prelude.{
  ℕ, ◌/◌, ◌%◌, String, Bool, true, false, ◌&&◌, Option, none, some, List, [], ◌∷◌, take,
  if◌then◌else◌, eqb, ◌==◌,
}
use caladon.Sdk.Text.{Text}
use caladon.Store.Tables.{Tables, empty_tables}
use caladon.Store.Action.{
  Env, World, Failure, not_open, engine, unsupported, Outcome, ok, throw, Action, next,
}
use caladon.Store.Import.{Dynamic}
use caladon.Store.Search.{Fts}

-- A file of the device: none or an empty one, one that its key opens, or one that no page can be
-- read of.
pub data File : Type 0 where
  absent unreadable : File
  holds : Tables → File

-- The open connection: its file, none for ':memory:', and whether init has come to its end. A
-- connection of which init has failed halfway stays: it has no key, no schema or no foreign keys.
pub record Connection : Type 0 where
  pub file : Option String
  pub complete : Bool

pub record Worker : Type 0 where
  pub db : Option Connection
  pub persistent : Bool
  -- whether poolUtil is set
  pub pool : Bool
  pub files : String → File
  pub world : World

pub record Engine : Type 1 where
  pub env : Env
  pub dynamic : Dynamic
  pub fts : Fts
  -- the UTF-16 code units of a text
  pub code_units : String → Text
  -- the SHA-256 digest of a text's UTF-8
  pub digest : String → List ℕ
  -- err.message
  pub message : Failure → String
  -- whether the package exports an init function, and whether it has FTS5
  pub has_init : Bool
  pub has_fts5 : Bool
  -- crossOriginIsolated, and the functions that the package may lack
  pub isolated : Bool
  pub installs_pool : Bool
  pub unlinks : Bool
  pub wipes : Bool
  -- whether the file's message_embeddings has the DDL of the first schema
  pub has_old_shape : Option String → Bool
  -- what an operation does on a connection of which init has not come to its end
  pub on_incomplete : {A : Type 0} → Action A → Action A
  -- what it leaves in the connection's file
  pub incomplete_file : File → World → File

abbrev pub Task : Type 0 → Type 0
Task A = Worker → Outcome A × Worker

abbrev pub done : {A : Type 0} → A → Task A
done a w = (ok a, w)

module _ {A B : Type 0} where
  abbrev pub proceed : Outcome A → (A → Task B) → Task B
  proceed (ok a) f w = f a w
  proceed (throw e) f w = (throw e, w)

  infixl 5 ◌>>=◌ ◌>>◌
  abbrev pub ◌>>=◌ : Task A → (A → Task B) → Task B
  ◌>>=◌ m f w = let (r, w') = m w in proceed r f w'

  abbrev pub ◌>>◌ : Task A → Task B → Task B
  m >> k = m >>= λ _. k

abbrev pub refuse : {A : Type 0} → Failure → Task A
refuse e w = (throw e, w)

abbrev pub modify : (Worker → Worker) → Task (Unit {0})
modify f w = (ok tt, f w)

-- try { m } catch { handler }
abbrev pub caught : Outcome (Unit {0}) → Task (Unit {0}) → Task (Unit {0})
caught (ok a) handler w = (ok a, w)
caught (throw e) handler w = handler w

abbrev pub try_catch : Task (Unit {0}) → Task (Unit {0}) → Task (Unit {0})
try_catch m handler w = let (r, w') = m w in caught r handler w'

abbrev pub with_tables : Tables → Worker → Worker
with_tables t w = record w { world = record w.world { tables = t } }

abbrev pub completed_connection : Option Connection → Option Connection
completed_connection none = none
completed_connection (some c) = some (record c { complete = true })

abbrev pub tables_in : File → Tables
tables_in absent = empty_tables
tables_in unreadable = empty_tables
tables_in (holds t) = t

abbrev pub is_unreadable : File → Bool
is_unreadable unreadable = true
is_unreadable _ = false

-- The files after a connection to one of them, or to none, has left `after` in it.
abbrev pub left_in : Option String → File → (String → File) → String → File
left_in none after files g = files g
left_in (some f) after files g = if g == f then after else files g

abbrev pub cannot_read : (String → File) → Option String → Bool
cannot_read files none = false
cannot_read files (some f) = is_unreadable (files f)

-- b.toString(16), of a digit
unfoldable hex_digit : ℕ → String
hex_digit n =
    if eqb n 10
    then "a"
    else if eqb n 11
    then "b"
    else if eqb n 12
    then "c"
    else if eqb n 13
    then "d"
    else if eqb n 14
    then "e"
    else if eqb n 15
    then "f"
    else if eqb n 0
    then "0"
    else if eqb n 1
    then "1"
    else if eqb n 2
    then "2"
    else if eqb n 3
    then "3"
    else if eqb n 4
    then "4"
    else if eqb n 5
    then "5"
    else if eqb n 6
    then "6"
    else if eqb n 7
    then "7"
    else if eqb n 8
    then "8"
    else "9"

unfoldable hex_text : List ℕ → String
unfolding hex_digit
hex_text [] = ""
hex_text (b ∷ bs) =
    text_append (hex_digit (b / 16)) (text_append (hex_digit (b % 16)) (hex_text bs))

module _ (e : Engine) where
  -- dbFileFor(hexKey)
  unfoldable pub db_file_for : String → String
  unfolding hex_text
  db_file_for hex_key =
      text_append "caladon-store-v1-" (text_append (hex_text (take 8 (e.digest hex_key))) ".db")

  -- One call of the engine, with its effect if it does not fail.
  unfoldable pub engine_call : (Worker → Worker) → Task (Unit {0})
  engine_call f w =
      if e.env.fault w.world.tick
      then (throw engine, record w { world = next w.world })
      else (ok tt, f (record w { world = next w.world }))

  -- poolUtil = await sqlite3.installOpfsSAHPoolVfs(…), once
  unfoldable pub install_pool : Task (Unit {0})
  unfolding engine_call
  install_pool w = if w.pool then (ok tt, w) else engine_call (λ v. record v { pool = true }) w

  abbrev pub opened_file : String → Worker → Worker
  opened_file file w =
      with_tables (tables_in (w.files file))
        (record w { db = some (record { file = some file; complete = false }); persistent = true })

  abbrev pub opened_memory : Worker → Worker
  opened_memory w =
      with_tables empty_tables (record w { db = some (record { file = none; complete = false }) })

  unfoldable pub open_memory : Task (Unit {0})
  unfolding engine_call
  open_memory = do modify (λ w. record w { persistent = false }); engine_call opened_memory

  -- openDb(sqlite3, dbFile): the file through the ciphers, or else a connection in memory.
  unfoldable pub open_db : String → Task (Unit {0})
  unfolding install_pool engine_call open_memory
  open_db file =
      if e.isolated && e.installs_pool
      then try_catch (do install_pool; engine_call (opened_file file)) open_memory
      else open_memory

  abbrev pub open_file : Option Connection → Option String
  open_file none = none
  open_file (some c) = c.file

  -- mustDb().selectValue('SELECT count(*) FROM sqlite_schema')
  unfoldable pub read_schema : Task (Unit {0})
  unfolding engine_call
  read_schema w =
      if cannot_read w.files (open_file w.db)
      then (throw engine, record w { world = next w.world })
      else engine_call (λ v. v) w

  -- poolUtil.unlink(…), or poolUtil.wipeFiles()
  abbrev pub unlinked : String → Worker → Worker
  unlinked file w = record w { files = λ f. if f == file then absent else w.files f }

  abbrev pub wiped : Worker → Worker
  wiped w = record w { files = λ f. absent }

  unfoldable pub remove_file : String → Task (Unit {0})
  unfolding engine_call
  remove_file file w =
      if e.unlinks
      then engine_call (unlinked file) w
      else (if e.wipes then engine_call wiped w else (ok tt, w))

  -- PRAGMA key, and the other calls of which only the failure shows
  abbrev pub statement : Task (Unit {0})
  statement = engine_call (λ w. w)

  -- A file that cannot be read is removed and made again.
  unfoldable pub recreate : String → Task (Unit {0})
  unfolding engine_call remove_file open_db read_schema
  recreate file = do
    try_catch statement (done tt)
    modify (λ w. record w { db = none })
    try_catch (remove_file file) (done tt)
    open_db file
    statement
    read_schema

  unfoldable pub check_readable : String → Task (Unit {0})
  unfolding recreate read_schema
  check_readable file w =
      if w.persistent then try_catch read_schema (recreate file) w else (ok tt, w)

  -- The embeddings of the first schema are dropped.
  abbrev pub drop_embeddings : Worker → Worker
  drop_embeddings w =
      with_tables (record w.world.tables { message_embeddings = [] })
        (record w {
          files =
              left_in (open_file w.db) (holds (record w.world.tables { message_embeddings = [] }))
                w.files;
        })

  unfoldable pub migrate : Task (Unit {0})
  unfolding engine_call
  migrate w = if e.has_old_shape (open_file w.db) then engine_call drop_embeddings w else (ok tt, w)

  unfoldable pub confirm_fts : Task (Unit {0})
  confirm_fts w =
      if e.has_fts5
      then (ok tt, record w { db = completed_connection w.db })
      else (throw unsupported, w)

  -- init, where there is no connection
  unfoldable pub open_store_file : String → Task (Unit {0})
  unfolding engine_call open_db check_readable migrate confirm_fts db_file_for
  open_store_file hex_key = do
    statement
    if e.has_init then done tt else refuse unsupported
    statement
    open_db (db_file_for hex_key)
    statement
    check_readable (db_file_for hex_key)
    statement
    statement
    statement
    statement
    statement
    migrate
    statement
    statement
    confirm_fts

  -- init(hexKey)
  unfoldable pub init_store : String → Task (Unit {0})
  unfolding open_store_file
  init_store hex_key w = elim w.db [ some _ ↦ (ok tt, w) | none ↦ open_store_file hex_key w ]

  -- the file of a connection after an operation on it
  abbrev pub file_after : Bool → File → World → File
  file_after true file v = holds v.tables
  file_after false file v = e.incomplete_file file v

  abbrev pub file_of : Option String → (String → File) → File
  file_of none files = absent
  file_of (some f) files = files f

  -- What an operation has committed stands in the connection's file too.
  abbrev pub committed : Connection → World → Worker → Worker
  committed c v w = record w {
    world = v;
    files = left_in c.file (file_after c.complete (file_of c.file w.files) v) w.files;
  }

  -- mustDb(), and the operation on the connection
  unfoldable pub on_db : {A : Type 0} → Action A → Task A
  on_db m w = elim w.db [
    | none ↦ (throw not_open, w)
    | some c ↦
        let (r, v) = (if c.complete then m else e.on_incomplete m) w.world in (r, committed c v w)
  ]
