-- ===== src/Store/Action/Laws.antt =====
-- What the transactions of store.worker.ts promise, whatever runs inside them.
use caladon.Prelude.{ℕ, ◌≡◌, false, arith}
use caladon.Store.Action.{Env, World, Failure, ok, throw, Action, next, tx}

-- No statement is failed by the engine.
abbrev pub Quiet : Env → Type 0
Quiet env = (n : ℕ) → env.fault n ≡ false

module _ (env : Env) where
  -- A transaction that throws leaves the tables as they were, whatever its body wrote before the
  -- throw, and whichever statement failed: BEGIN, one of the body, or COMMIT.
  pub tx_atomic :
      {A : Type 0} (fn : Action A) (w : World) (e : Failure)
      → (tx env fn w).0 ≡ throw e
      → (tx env fn w).1.tables ≡ w.tables
  unfolding tx
  tx_atomic fn w e h = ground arith

  pub tx_returns :
      {A : Type 0} (fn : Action A) (w : World) (a : A)
      → (tx env fn w).0 ≡ ok a
      → ((fn (next w)).0 ≡ ok a) × ((tx env fn w).1.tables ≡ (fn (next w)).1.tables)
  unfolding tx
  tx_returns fn w a h = ground arith

  -- A transaction of a body that returns commits what the body wrote.
  pub tx_commits :
      {A : Type 0} (fn : Action A) (w : World) (a : A)
      → Quiet env
      → (fn (next w)).0 ≡ ok a
      → ((tx env fn w).0 ≡ ok a) × ((tx env fn w).1.tables ≡ (fn (next w)).1.tables)
  unfolding tx
  tx_commits fn w a quiet h = (simp (quiet, h), simp (quiet, h))
