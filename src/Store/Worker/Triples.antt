-- ===== src/Store/Worker/Triples.antt =====
-- What a task of the worker leads from and to, whether it returns or throws: one rule for each way
-- to build a task.
use caladon.Prelude.{Bool, true, false, Bool-cases, inl, inr, if◌then◌else◌}
use caladon.Store.Action.{Outcome, ok, throw, Failure, next}
use caladon.Store.Worker.{
  Worker, Engine, Task, ◌>>=◌, done, proceed, refuse, modify, try_catch, caught, engine_call,
}

-- What holds where a task has returned, and where it has thrown.
abbrev pub Ends : {A : Type 0} → (Worker → Type 0) → (Worker → Type 0) → Outcome A → Worker → Type 0
Ends Q R (ok a) w = Q w
Ends Q R (throw e) w = R w

pub record Meets {A : Type 0} (P Q R : Worker → Type 0) (m : Task A) : Type 0 where
  pub at : (w : Worker) → P w → Ends Q R (m w).0 (m w).1

proceed-Ends :
    {A B : Type 0} (Q S R : Worker → Type 0) (r : Outcome A) (f : A → Task B) (w : Worker)
    → Ends Q R r w
    → ((a : A) → Meets Q S R (f a))
    → Ends S R (proceed r f w).0 (proceed r f w).1
proceed-Ends Q S R (ok a) f w h k = (k a).at w h
proceed-Ends Q S R (throw e) f w h k = h

pub Meets-bind :
    {A B : Type 0} {P Q S R : Worker → Type 0} (m : Task A) (f : A → Task B)
    → Meets P Q R m
    → ((a : A) → Meets Q S R (f a))
    → Meets P S R (m >>= f)
Meets-bind {Q = Q} {S = S} {R = R} m f h k = record {
  at = λ w p. proceed-Ends Q S R (m w).0 f (m w).1 (h.at w p) k;
}

caught-Ends :
    (Q T R : Worker → Type 0) (r : Outcome (Unit {0})) (handler : Task (Unit {0})) (w : Worker)
    → Ends Q T r w
    → Meets T Q R handler
    → Ends Q R (caught r handler w).0 (caught r handler w).1
caught-Ends Q T R (ok a) handler w h k = h
caught-Ends Q T R (throw e) handler w h k = k.at w h

pub Meets-try_catch :
    {P Q T R : Worker → Type 0} (m handler : Task (Unit {0}))
    → Meets P Q T m
    → Meets T Q R handler
    → Meets P Q R (try_catch m handler)
Meets-try_catch {Q = Q} {T = T} {R = R} m handler h k = record {
  at = λ w p. caught-Ends Q T R (m w).0 handler (m w).1 (h.at w p) k;
}

-- A call that fails changes nothing but the answers left.
pub Meets-engine_call :
    {P Q R : Worker → Type 0} (e : Engine) (f : Worker → Worker)
    → ((w : Worker) → P w → Q (f (record w { world = next w.world })))
    → ((w : Worker) → P w → R (record w { world = next w.world }))
    → Meets P Q R (engine_call e f)
unfolding engine_call
Meets-engine_call e f h k = record {
  at = λ w p. elim (Bool-cases (e.env.fault w.world.tick)) [
    | inl bad ↦ rw bad (k w p)
    | inr good ↦ rw good (h w p)
  ];
}

pub Meets-done : {P R : Worker → Type 0} → Meets P P R (done tt)
Meets-done = record { at = λ w p. p }

pub Meets-refuse : {P Q : Worker → Type 0} (e : Failure) → Meets P Q P (refuse {A = Unit {0}} e)
Meets-refuse e = record { at = λ w p. p }

pub Meets-modify :
    {P Q R : Worker → Type 0} (f : Worker → Worker)
    → ((w : Worker) → P w → Q (f w))
    → Meets P Q R (modify f)
Meets-modify f h = record { at = h }

pub Meets-if :
    {P Q R : Worker → Type 0} (b : Bool) (m n : Task (Unit {0}))
    → Meets P Q R m
    → Meets P Q R n
    → Meets P Q R (if b then m else n)
Meets-if true m n h k = h
Meets-if false m n h k = k

pub Meets-when :
    {P Q R : Worker → Type 0} (b : Worker → Bool) (m n : Task (Unit {0}))
    → Meets P Q R m
    → Meets P Q R n
    → Meets P Q R (λ w. if b w then m w else n w)
Meets-when b m n h k = record {
  at = λ w p. elim (Bool-cases (b w)) [ inl t ↦ rw t (h.at w p) | inr f ↦ rw f (k.at w p) ];
}
