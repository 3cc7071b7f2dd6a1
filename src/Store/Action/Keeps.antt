-- ===== src/Store/Action/Keeps.antt =====
-- What actions keep of the tables, one rule for each way to build an action.
use caladon.Prelude.{subst, ◌≡◌, refl, Bool, true, false, Bool-cases, inl, inr, if◌then◌else◌}
use caladon.Store.Tables.{Tables}
use caladon.Store.Action.{
  Env, World, Outcome, ok, throw, Action, next, pure, continue, ◌>>=◌, written, finish, run, query,
  date_now, random_id, tx,
}

-- The action keeps `P` of the tables, whether it returns or throws.
pub record Keeps {A : Type 0} (P : Tables → Type 0) (m : Action A) : Type 0 where
  pub at : (w : World) → P w.tables → P (m w).1.tables

-- The statement keeps `P` where it does not throw.
pub record Preserves (P : Tables → Type 0) (s : Tables → Outcome Tables) : Type 0 where
  pub at : (t u : Tables) → P t → s t ≡ ok u → P u

pub ok-injective : {t u : Tables} → ok t ≡ ok u → t ≡ u
ok-injective h = cc

-- A statement that never throws.
pub Preserves-ok :
    (P : Tables → Type 0) (g : Tables → Tables)
    → ((t : Tables) → P t → P (g t))
    → Preserves P (λ t. ok (g t))
Preserves-ok P g f = record { at = λ t u h e. subst P (ok-injective e) (f t h) }

module _ {P : Tables → Type 0} where
  written-keeps :
      (w : World) (r : Outcome Tables)
      → P w.tables
      → ((u : Tables) → r ≡ ok u → P u)
      → P (written r w).1.tables
  written-keeps w (ok u) h k = k u refl
  written-keeps w (throw e) h k = h

  pub Keeps-run : (env : Env) (s : Tables → Outcome Tables) → Preserves P s → Keeps P (run env s)
  unfolding run
  Keeps-run env s ps = record {
    at = λ w h. elim (Bool-cases (env.fault w.tick)) [
      | inl bad ↦ rw bad h
      | inr good ↦ rw good (written-keeps (next w) (s w.tables) h (λ u e. ps.at w.tables u h e))
    ];
  }

  pub Keeps-date_now : (env : Env) → Keeps P (date_now env)
  unfolding date_now
  Keeps-date_now env = record { at = λ w h. h }

  pub Keeps-random_id : (env : Env) → Keeps P (random_id env)
  unfolding random_id
  Keeps-random_id env = record { at = λ w h. h }

module _ {A : Type 0} where
  finish-keeps :
      (P : Tables → Type 0) (env : Env) (before : Tables) (r : Outcome A) (w : World)
      → P before
      → P w.tables
      → P (finish env before r w).1.tables
  finish-keeps P env before (ok a) w hb hw = elim (Bool-cases (env.fault w.tick)) [
    | inl bad ↦ rw bad hb
    | inr good ↦ rw good hw
  ]
  finish-keeps P env before (throw e) w hb hw = hb

module _ {A : Type 0} {P : Tables → Type 0} where
  pub Keeps-pure : (a : A) → Keeps P (pure a)
  Keeps-pure a = record { at = λ w h. h }

  pub Keeps-query : (env : Env) (f : Tables → A) → Keeps P (query env f)
  unfolding query
  Keeps-query env f = record {
    at = λ w h. elim (Bool-cases (env.fault w.tick)) [ inl bad ↦ rw bad h | inr good ↦ rw good h ];
  }

  pub Keeps-if : (b : Bool) (m n : Action A) → Keeps P m → Keeps P n → Keeps P (if b then m else n)
  Keeps-if true m n km kn = km
  Keeps-if false m n km kn = kn

  pub Keeps-tx : (env : Env) (m : Action A) → Keeps P m → Keeps P (tx env m)
  unfolding tx
  Keeps-tx env m km = record {
    at = λ w h. elim (Bool-cases (env.fault w.tick)) [
      | inl bad ↦ rw bad h
      | inr good ↦
          rw good (finish-keeps P env w.tables (m (next w)).0 (m (next w)).1 h (km.at (next w) h))
    ];
  }

module _ {A B : Type 0} {P : Tables → Type 0} where
  continue-keeps :
      (r : Outcome A) (f : A → Action B) (w : World)
      → ((a : A) → Keeps P (f a))
      → P w.tables
      → P (continue r f w).1.tables
  continue-keeps (ok a) f w kf h = (kf a).at w h
  continue-keeps (throw e) f w kf h = h

  pub Keeps-bind :
      (m : Action A) (f : A → Action B) → Keeps P m → ((a : A) → Keeps P (f a)) → Keeps P (m >>= f)
  Keeps-bind m f km kf = record { at = λ w h. continue-keeps (m w).0 f (m w).1 kf (km.at w h) }

pub ruleset keeps_rules = (
  Keeps-pure, Keeps-run, Keeps-query, Keeps-date_now, Keeps-random_id, Keeps-if, Keeps-tx,
  Keeps-bind,
)
