-- ===== src/Store/Worker/Soundness.antt =====
-- store.worker.ts: init opens a consistent database, and every request keeps it so.
use caladon.Prelude.{
  ◌≡◌, refl, String, true, false, Bool-cases, inl, inr, Option, none, some, [], ◌&&◌, if◌then◌else◌,
  ◌==◌, eq_refl, arith, Bool, not,
}
use caladon.Store.Tables.{Tables, IsConsistent, IsConsistent-empty}
use caladon.Store.Action.{ok, throw, engine, next, unsupported}
use caladon.Store.Worker.{
  File, absent, holds, left_in, Connection, Worker, Engine, done, refuse, modify, try_catch,
  tables_in, engine_call, install_pool, opened_file, opened_memory, open_memory, open_db,
  read_schema, cannot_read, open_file, remove_file, statement, recreate, check_readable,
  drop_embeddings, migrate, completed_connection, unlinked, wiped, confirm_fts, open_store_file,
  db_file_for,
}
use caladon.Store.Worker.Triples.{
  Meets, Meets-bind, Meets-try_catch, Meets-engine_call, Meets-done, Meets-refuse, Meets-modify,
  Meets-if, Meets-when,
}

-- The files hold consistent databases.
abbrev pub FilesConsistent : (String → File) → Type 0
FilesConsistent files = (f : String) → IsConsistent (tables_in (files f))

abbrev pub Incomplete : Option Connection → Type 0
Incomplete none = Unit
Incomplete (some c) = c.complete ≡ false

-- While init runs.
pub record IsOpening (w : Worker) : Type 0 where
  pub files : FilesConsistent w.files
  pub db : Incomplete w.db

-- The file of a connection, if it has one, holds the tables.
abbrev pub IsStored : Option String → (String → File) → Tables → Type 0
IsStored none files t = Unit
IsStored (some f) files t = tables_in (files f) ≡ t

abbrev pub DbStored : Option Connection → (String → File) → Tables → Type 0
DbStored none files t = Unit
DbStored (some c) files t = IsStored c.file files t

record IsOpen (w : Worker) : Type 0 where
  pub files : FilesConsistent w.files
  pub db : Incomplete w.db
  tables : IsConsistent w.world.tables
  stored : DbStored w.db w.files w.world.tables

abbrev pub CompleteConsistent : Option Connection → Tables → Type 0
CompleteConsistent none t = Unit
CompleteConsistent (some c) t = c.complete ≡ true → IsConsistent t

abbrev pub CompleteStored : Option Connection → (String → File) → Tables → Type 0
CompleteStored none files t = Unit
CompleteStored (some c) files t = c.complete ≡ true → IsStored c.file files t

-- Whether a file is that of a connection of which init has not come to its end.
abbrev pub is_file : Option String → String → Bool
is_file none g = false
is_file (some f) g = g == f

abbrev pub is_spoiled : Option Connection → String → Bool
is_spoiled none g = false
is_spoiled (some c) g = not c.complete && is_file c.file g

-- Between two requests: the files hold consistent databases, and the file of a connection holds what
-- the connection reads. Of a connection of which init has not come to its end nothing is promised,
-- nor of its file.
pub record IsSound (w : Worker) : Type 0 where
  pub files : (f : String) → is_spoiled w.db f ≡ false → IsConsistent (tables_in (w.files f))
  pub db : CompleteConsistent w.db w.world.tables
  pub stored : CompleteStored w.db w.files w.world.tables

Incomplete-CompleteStored :
    (o : Option Connection) (files : String → File) (t : Tables)
    → Incomplete o
    → CompleteStored o files t
Incomplete-CompleteStored none files t h = tt
Incomplete-CompleteStored (some c) files t h = λ k. absurd (ground arith)

completed-CompleteStored :
    (o : Option Connection) (files : String → File) (t : Tables)
    → DbStored o files t
    → CompleteStored (completed_connection o) files t
completed-CompleteStored none files t h = tt
completed-CompleteStored (some c) files t h = λ k. h

-- what a connection has left in its file stands there
pub left_in-IsStored :
    (o : Option String) (t : Tables) (files : String → File)
    → IsStored o (left_in o (holds t) files) t
left_in-IsStored none t files = tt
left_in-IsStored (some f) t files = rw (eq_refl f) refl

left_in-DbStored :
    (e : Engine) (o : Option Connection) (t : Tables) (files : String → File)
    → DbStored o (left_in (open_file e o) (holds t) files) t
left_in-DbStored e none t files = tt
left_in-DbStored e (some c) t files = left_in-IsStored c.file t files

Incomplete-CompleteConsistent :
    (o : Option Connection) (t : Tables) → Incomplete o → CompleteConsistent o t
Incomplete-CompleteConsistent none t h = tt
Incomplete-CompleteConsistent (some c) t h = λ k. absurd (ground arith)

pub opening-IsSound : (w : Worker) → IsOpening w → IsSound w
opening-IsSound w h = record {
  files = λ f k. h.files f;
  db = Incomplete-CompleteConsistent w.db w.world.tables h.db;
  stored = Incomplete-CompleteStored w.db w.files w.world.tables h.db;
}

abbrev open_opening : (w : Worker) → IsOpen w → IsOpening w
open_opening w h = record { files = h.files; db = h.db }

FilesConsistent-unlinked :
    (file : String) (files : String → File)
    → FilesConsistent files
    → FilesConsistent (λ f. if f == file then absent else files f)
FilesConsistent-unlinked file files h f = elim (Bool-cases (f == file)) [
  | inl this ↦ rw this IsConsistent-empty
  | inr other ↦ rw other (h f)
]

pub dropped_vectors :
    (t : Tables) → IsConsistent t → IsConsistent (record t { message_embeddings = [] })
dropped_vectors t h = record {
  convos_keyed = h.convos_keyed;
  messages_keyed = h.messages_keyed;
  messages_refer = h.messages_refer;
  vectors_keyed = tt;
  memories_keyed = h.memories_keyed;
  agents_keyed = h.agents_keyed;
  skills_keyed = h.skills_keyed;
}

FilesConsistent-left_in :
    (o : Option String) (t : Tables) (files : String → File)
    → IsConsistent t
    → FilesConsistent files
    → FilesConsistent (left_in o (holds t) files)
FilesConsistent-left_in none t files h k g = k g
FilesConsistent-left_in (some f) t files h k g = elim (Bool-cases (g == f)) [
  | inl this ↦ rw this h
  | inr other ↦ rw other (k g)
]

CompleteConsistent-completed :
    (o : Option Connection) (t : Tables)
    → IsConsistent t
    → CompleteConsistent (completed_connection o) t
CompleteConsistent-completed none t h = tt
CompleteConsistent-completed (some c) t h = λ k. h

module _ (e : Engine) where
  -- A call whose effect keeps the files and the connection, before and after it is open.
  call-IsOpening :
      (f : Worker → Worker)
      → ((w : Worker) → IsOpening w → IsOpening (f w))
      → Meets IsOpening IsOpening IsOpening (engine_call e f)
  call-IsOpening f h =
      Meets-engine_call e f
        (λ w p. h (record w { world = next w.world }) (record { files = p.files; db = p.db }))
        (λ w p. record { files = p.files; db = p.db })

  call-IsOpen :
      (f : Worker → Worker)
      → ((w : Worker) → IsOpen w → IsOpen (f w))
      → Meets IsOpen IsOpen IsOpening (engine_call e f)
  call-IsOpen f h =
      Meets-engine_call e f
        (λ w p.
          h (record w { world = next w.world })
            (record { files = p.files; db = p.db; tables = p.tables; stored = p.stored }))
        (λ w p. record { files = p.files; db = p.db })

  -- A call that opens a connection.
  call_opens :
      (f : Worker → Worker)
      → ((w : Worker) → IsOpening w → IsOpen (f w))
      → Meets IsOpening IsOpen IsOpening (engine_call e f)
  call_opens f h =
      Meets-engine_call e f
        (λ w p. h (record w { world = next w.world }) (record { files = p.files; db = p.db }))
        (λ w p. record { files = p.files; db = p.db })

  install_pool-Meets : Meets IsOpening IsOpening IsOpening (install_pool e)
  unfolding install_pool
  install_pool-Meets =
      Meets-when (λ w. w.pool) (done tt) (engine_call e (λ v. record v { pool = true })) Meets-done
        (call-IsOpening (λ v. record v { pool = true })
          (λ w p. record { files = p.files; db = p.db }))

  open_memory-Meets : Meets IsOpening IsOpen IsOpening (open_memory e)
  unfolding open_memory
  open_memory-Meets =
      Meets-bind {Q = IsOpening} (modify (λ w. record w { persistent = false }))
        (λ _. engine_call e (opened_memory e))
        (Meets-modify _ (λ w p. record { files = p.files; db = p.db }))
        (λ _.
          call_opens (opened_memory e) (λ w p. record {
            files = p.files;
            db = refl;
            tables = IsConsistent-empty;
            stored = tt;
          }))

  open_db-Meets : (file : String) → Meets IsOpening IsOpen IsOpening (open_db e file)
  unfolding open_db
  open_db-Meets file =
      Meets-if (e.isolated && e.installs_pool) _ _
        (Meets-try_catch _ _
          (Meets-bind _ (λ _. engine_call e (opened_file e file)) install_pool-Meets
            (λ _.
              call_opens (opened_file e file) (λ w p. record {
                files = p.files;
                db = refl;
                tables = p.files file;
                stored = refl;
              })))
          open_memory-Meets)
        open_memory-Meets

  read_schema-Meets : Meets IsOpen IsOpen IsOpening (read_schema e)
  unfolding read_schema
  read_schema-Meets =
      Meets-when (λ w. cannot_read w.files (open_file e w.db))
        (λ w. (throw engine, record w { world = next w.world })) (engine_call e (λ v. v))
        (record { at = λ w p. record { files = p.files; db = p.db } })
        (call-IsOpen (λ v. v) (λ w p. p))

  statement-IsOpening : Meets IsOpening IsOpening IsOpening (statement e)
  statement-IsOpening = call-IsOpening (λ w. w) (λ w p. p)

  statement-IsOpen : Meets IsOpen IsOpen IsOpening (statement e)
  statement-IsOpen = call-IsOpen (λ w. w) (λ w p. p)

  remove_file-Meets : (file : String) → Meets IsOpening IsOpening IsOpening (remove_file e file)
  unfolding remove_file
  remove_file-Meets file =
      Meets-when (λ w. e.unlinks) (engine_call e (unlinked e file))
        (λ w. if e.wipes then engine_call e (wiped e) w else (ok tt, w))
        (call-IsOpening (unlinked e file)
          (λ w p. record { files = FilesConsistent-unlinked file w.files p.files; db = p.db }))
        (Meets-when (λ w. e.wipes) (engine_call e (wiped e)) (done tt)
          (call-IsOpening (wiped e) (λ w p. record { files = λ f. IsConsistent-empty; db = p.db }))
          Meets-done)

  recreate-Meets : (file : String) → Meets IsOpening IsOpen IsOpening (recreate e file)
  unfolding recreate
  recreate-Meets file =
      Meets-bind _ _ (Meets-try_catch {T = IsOpening} _ _ statement-IsOpening Meets-done) (λ _.
        Meets-bind {Q = IsOpening} _ _ (Meets-modify _ (λ w p. record { files = p.files; db = tt }))
          (λ _.
            Meets-bind _ _ (Meets-try_catch {T = IsOpening} _ _ (remove_file-Meets file) Meets-done)
              (λ _.
                Meets-bind _ _ (open_db-Meets file)
                  (λ _. Meets-bind _ _ statement-IsOpen (λ _. read_schema-Meets)))))

  check_readable-Meets : (file : String) → Meets IsOpen IsOpen IsOpening (check_readable e file)
  unfolding check_readable
  check_readable-Meets file =
      Meets-when (λ w. w.persistent) (try_catch (read_schema e) (recreate e file)) (done tt)
        (Meets-try_catch _ _ read_schema-Meets (recreate-Meets file)) (record { at = λ w p. p })

  migrate-Meets : Meets IsOpen IsOpen IsOpening (migrate e)
  unfolding migrate
  migrate-Meets =
      Meets-when (λ w. e.has_old_shape (open_file e w.db)) (engine_call e (drop_embeddings e))
        (done tt)
        (call-IsOpen (drop_embeddings e) (λ w p. record {
          files =
              FilesConsistent-left_in (open_file e w.db)
                (record w.world.tables { message_embeddings = [] }) w.files
                (dropped_vectors w.world.tables p.tables) p.files;
          db = p.db;
          tables = dropped_vectors w.world.tables p.tables;
          stored =
              left_in-DbStored e w.db (record w.world.tables { message_embeddings = [] }) w.files;
        }))
        (record { at = λ w p. p })

  confirm_fts-Meets : Meets IsOpen IsSound IsOpening (confirm_fts e)
  unfolding confirm_fts
  confirm_fts-Meets =
      Meets-when (λ w. e.has_fts5) (λ w. (ok tt, record w { db = completed_connection w.db }))
        (refuse unsupported)
        (record {
          at = λ w p. record {
            files = λ f k. p.files f;
            db = CompleteConsistent-completed w.db w.world.tables p.tables;
            stored = completed-CompleteStored w.db w.files w.world.tables p.stored;
          };
        })
        (record { at = λ w p. record { files = p.files; db = p.db } })

  pub open_store_file-Meets :
      (key : String) → Meets IsOpening IsSound IsOpening (open_store_file e key)
  unfolding open_store_file
  open_store_file-Meets key = Meets-bind _ _ statement-IsOpening (λ _.
      Meets-bind _ _ (Meets-if e.has_init _ _ Meets-done (Meets-refuse unsupported)) (λ _.
        Meets-bind _ _ statement-IsOpening (λ _.
          Meets-bind _ _ (open_db-Meets (db_file_for e key)) (λ _.
            Meets-bind _ _ statement-IsOpen (λ _.
              Meets-bind _ _ (check_readable-Meets (db_file_for e key)) (λ _.
                Meets-bind _ _ statement-IsOpen (λ _. Meets-bind _ _ statement-IsOpen (λ _.
                  Meets-bind _ _ statement-IsOpen (λ _. Meets-bind _ _ statement-IsOpen (λ _.
                    Meets-bind _ _ statement-IsOpen (λ _. Meets-bind _ _ migrate-Meets (λ _.
                      Meets-bind _ _ statement-IsOpen
                        (λ _. Meets-bind _ _ statement-IsOpen (λ _. confirm_fts-Meets))))))))))))))
