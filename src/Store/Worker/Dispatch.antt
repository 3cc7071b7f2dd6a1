-- ===== src/Store/Worker/Dispatch.antt =====
-- store.worker.ts: what init and mustDb do, by the state of the connection.
use caladon.Prelude.{◌≡◌, String, none, some, arith, if◌then◌else◌}
use caladon.Store.Action.{ok, throw, not_open, Action}
use caladon.Store.Worker.{Worker, Connection, Engine, init_store, open_store_file, on_db, committed}

module _ (e : Engine) (w : Worker) where
  pub init_store_closed :
      (key : String) → w.db ≡ none → init_store e key w ≡ open_store_file e key w
  unfolding init_store
  init_store_closed key h = ground arith

  pub init_store_open :
      (key : String) (c : Connection) → w.db ≡ some c → init_store e key w ≡ (ok tt, w)
  unfolding init_store
  init_store_open key c h = ground arith

  pub on_db_closed : {A : Type 0} (m : Action A) → w.db ≡ none → on_db e m w ≡ (throw not_open, w)
  unfolding on_db
  on_db_closed m h = ground arith

  pub on_db_open :
      {A : Type 0} (m : Action A) (c : Connection)
      → w.db ≡ some c
      → on_db e m w ≡ (
        ((if c.complete then m else e.on_incomplete m) w.world).0,
        committed e c ((if c.complete then m else e.on_incomplete m) w.world).1 w,
      )
  unfolding on_db
  on_db_open m c h = ground arith
