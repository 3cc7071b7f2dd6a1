-- ===== src/Store/Action.antt =====
-- The statements and the transactions of store.worker.ts as actions that may throw. SQLite, the
-- clock, randomUUID and JSON are not this program's: they are the environment, a parameter.
pub mod Laws
pub mod Keeps
use caladon.Prelude.{ℕ, ◌+◌, String, Bool, true, false, Option, if◌then◌else◌}
use caladon.Store.Tables.{Tables}

-- A value of JSON. A number is a natural number, as every number that the store reads is.
mutual
  pub data Json : Type 0 where
    null : Json
    bool : Bool → Json
    num : ℕ → Json
    str : String → Json
    arr : Items → Json
    obj : Fields → Json

  pub data Items : Type 0 where
    nil : Items
    cons : Json → Items → Items

  pub data Fields : Type 0 where
    end : Fields
    field : String → Json → Fields → Fields

-- The answers that the n-th request to the environment gets: whether the engine fails the statement
-- (a full disk, an I/O error), what Date.now() and randomId() return; and JSON's two functions.
pub record Env : Type 0 where
  pub fault : ℕ → Bool
  pub time : ℕ → ℕ
  pub fresh_id : ℕ → String
  pub parse_json : String → Option Json
  pub stringify : Json → String
  -- the BINARY collation of a TEXT column
  pub text_le : String → String → Bool

pub record World : Type 0 where
  pub tables : Tables
  -- the number of requests to the environment so far
  pub tick : ℕ

-- What a request can throw: the engine's failure, a constraint of the schema, a property of null
-- that is read, a store without a connection (mustDb), or a package without what init looks for.
pub data Failure : Type 0 where
  engine foreign_key unique type_error not_open unsupported : Failure

pub data Outcome {ℓ} (A : Type ℓ) : Type ℓ where
  ok : A → Outcome A
  throw : Failure → Outcome A

abbrev pub Action : Type 0 → Type 0
Action A = World → Outcome A × World

abbrev pub next : World → World
next w = record w { tick = w.tick + 1 }

abbrev pub pure : {A : Type 0} → A → Action A
pure a w = (ok a, w)

abbrev pub fail : {A : Type 0} → Failure → Action A
fail e w = (throw e, w)

module _ {A B : Type 0} where
  abbrev pub continue : Outcome A → (A → Action B) → Action B
  continue (ok a) f w = f a w
  continue (throw e) f w = (throw e, w)

  infixl 5 ◌>>=◌ ◌>>◌
  abbrev pub ◌>>=◌ : Action A → (A → Action B) → Action B
  ◌>>=◌ m f w = let (r, w') = m w in continue r f w'

  abbrev pub ◌>>◌ : Action A → Action B → Action B
  m >> k = m >>= λ _. k

-- What a statement wrote, or the world as it was if it threw.
abbrev pub written : Outcome Tables → Action (Unit {0})
written (ok t) w = (ok tt, record w { tables = t })
written (throw e) w = (throw e, w)

abbrev pub settle : {A : Type 0} → Bool → Tables → A → Action A
settle true before a w = (throw engine, record w { tables = before })
settle false before a w = (ok a, w)

abbrev pub finish : {A : Type 0} → Env → Tables → Outcome A → Action A
finish env before (ok a) w = settle (env.fault w.tick) before a (next w)
finish env before (throw e) w = (throw e, record (next w) { tables = before })

module _ (env : Env) where
  -- run(sql, bind): one statement that changes rows. A statement that throws has no effect.
  unfoldable pub run : (Tables → Outcome Tables) → Action (Unit {0})
  run statement w =
      if env.fault w.tick then (throw engine, next w) else written (statement w.tables) (next w)

  -- query(sql, bind)
  unfoldable pub query : {A : Type 0} → (Tables → A) → Action A
  query select w =
      if env.fault w.tick then (throw engine, next w) else (ok (select w.tables), next w)

  -- Date.now()
  unfoldable pub date_now : Action ℕ
  date_now w = (ok (env.time w.tick), next w)

  -- randomId()
  unfoldable pub random_id : Action String
  random_id w = (ok (env.fresh_id w.tick), next w)

  -- tx(fn): BEGIN IMMEDIATE stands outside the `try`, so its failure is passed on as it is; a throw
  -- of the body or of COMMIT runs ROLLBACK and is thrown again. A ROLLBACK that fails is ignored, as
  -- the engine has then rolled back by itself: the tables are those of before in either case.
  unfoldable pub tx : {A : Type 0} → Action A → Action A
  tx fn w =
      if env.fault w.tick
      then (throw engine, next w)
      else (let (r, w') = fn (next w) in finish env w.tables r w')
