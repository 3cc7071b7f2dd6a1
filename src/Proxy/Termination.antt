-- ===== src/Proxy/Termination.antt =====
-- client.ts: what terminate leaves behind.
use caladon.Proxy.{
  Caller, Op, Proxy, awaited, fail_opens, method_call, open_call, reject_ready, rejected_ready,
  resolved_ready, refuse_all, reject_all, stop_worker, terminate, terminated_message,
  worker_terminated, rejected, refused,
}
use caladon.Prelude.{
  Bool, List, String, [], false, if◌then◌else◌, refl, true, ◌||◌, ◌∷◌, ◌≡◌, ap, append-nil, arith,
  ◌++◌, ◌∙◌, map, Bool-cases, inl, inr,
}

abbrev pub is_open_call : Caller → Bool
is_open_call open_call = true
is_open_call method_call = false

-- whether an openStore is in flight
unfoldable pub has_open : List (String × Caller) → Bool
has_open [] = false
has_open ((id, caller) ∷ es) = is_open_call caller || has_open es

-- the methods that are refused when the promise is rejected
abbrev pub awaiting : Proxy → List Op
awaiting p = elim p.ready [ awaited ↦ p.waiting | resolved_ready ↦ [] | rejected_ready _ ↦ [] ]

reject_ready-settled :
    (m n : String) (p : Proxy) → p.ready ≡ rejected_ready n → reject_ready m p ≡ p
unfolding reject_ready
reject_ready-settled m n p h = ground arith

reject_ready-fresh :
    (m : String) (p : Proxy)
    → p.ready ≡ awaited
    → p.waiting ≡ []
    → reject_ready m p ≡ record p { ready = rejected_ready m; waiting = [] }
unfolding reject_ready refuse_all
reject_ready-fresh m p h k = ground (arith, append-nil p.log)

fail_opens-settled :
    (m n : String) (es : List (String × Caller)) (p : Proxy)
    → p.ready ≡ rejected_ready n
    → fail_opens m es p ≡ p
unfolding fail_opens
fail_opens-settled m n [] p h = refl
fail_opens-settled m n ((id, open_call) ∷ es) p h =
    ap (fail_opens m es) (reject_ready-settled m n p h) ∙ fail_opens-settled m n es p h
fail_opens-settled m n ((id, method_call) ∷ es) p h = fail_opens-settled m n es p h

-- On a fresh `ready` that nobody awaits, the failed openStores only reject it.
fail_opens-fresh :
    (m : String) (es : List (String × Caller)) (p : Proxy)
    → p.ready ≡ awaited
    → p.waiting ≡ []
    → fail_opens m es p
      ≡ (if has_open es then record p { ready = rejected_ready m; waiting = [] } else p)
unfolding fail_opens has_open
fail_opens-fresh m [] p h k = refl
fail_opens-fresh m ((id, open_call) ∷ es) p h k =
    ap (fail_opens m es) (reject_ready-fresh m p h k)
    ∙ fail_opens-settled m m es (record p { ready = rejected_ready m; waiting = [] }) refl
fail_opens-fresh m ((id, method_call) ∷ es) p h k = fail_opens-fresh m es p h k

-- What a termination leaves: no worker, no pending entry, no waiting method, a store that is not
-- open, and as the promise `ready` a fresh one, or one that is rejected at once if an openStore was
-- in flight. It shows the end of the worker, then the rejection of every pending call, then that of
-- every method that awaited the old promise, and nothing else.
pub record IsTorn (before after : Proxy) : Type 0 where
  pub no_worker : after.worker ≡ false
  pub none_pending : after.pending ≡ []
  pub none_waiting : after.waiting ≡ []
  pub closed : after.opened ≡ false
  pub new_ready :
      after.ready
      ≡ (if has_open before.pending then rejected_ready "store proxy terminated" else awaited)
  pub shown :
      after.log
      ≡ before.log
        ++ ((if before.worker then worker_terminated ∷ [] else [])
            ++ map (λ e. rejected e.0 "store proxy terminated") before.pending)
        ++ map (λ op. refused op "store proxy terminated") (awaiting before)

reject_all_lem :
    (m : String) (es : List (String × Caller)) → reject_all m es ≡ map (λ e. rejected e.0 m) es
unfolding reject_all
reject_all_lem m [] = refl
reject_all_lem m ((id, _) ∷ es) = ap (◌∷◌ (rejected id m)) (reject_all_lem m es)

refuse_all_lem : (m : String) (ops : List Op) → refuse_all m ops ≡ map (λ op. refused op m) ops
unfolding refuse_all
refuse_all_lem m [] = refl
refuse_all_lem m (op ∷ ops) = ap (◌∷◌ (refused op m)) (refuse_all_lem m ops)

shown_lem :
    (p : Proxy)
    → p.log
        ++ (stop_worker p ++ reject_all terminated_message p.pending)
        ++ refuse_all terminated_message (awaiting p)
      ≡ p.log
        ++ ((if p.worker then worker_terminated ∷ [] else [])
            ++ map (λ e. rejected e.0 "store proxy terminated") p.pending)
        ++ map (λ op. refused op "store proxy terminated") (awaiting p)
unfolding stop_worker
shown_lem p =
    rw (reject_all_lem terminated_message p.pending, refuse_all_lem terminated_message (awaiting p))
      refl

renewed :
    (m : String) (s : Proxy)
    → record (reject_ready m s) { ready = awaited; waiting = [] }
      ≡ record s { ready = awaited; waiting = []; log = s.log ++ refuse_all m (awaiting s) }
unfolding reject_ready refuse_all
renewed m s = ground (arith, append-nil s.log)

-- the proxy after the synchronous part of terminate()
abbrev halted : Proxy → Proxy
halted p = record p {
  worker = false;
  pending = [];
  opened = false;
  ready = awaited;
  waiting = [];
  log =
      p.log
      ++ (stop_worker p ++ reject_all terminated_message p.pending)
      ++ refuse_all terminated_message (awaiting p);
}

terminate_lem :
    (p : Proxy)
    → terminate p ≡ (
        if has_open p.pending
        then record (halted p) { ready = rejected_ready terminated_message; waiting = [] }
        else halted p)
unfolding terminate
terminate_lem p =
    ap (fail_opens terminated_message p.pending) (
      renewed terminated_message (record p {
        worker = false;
        pending = [];
        opened = false;
        log = p.log ++ (stop_worker p ++ reject_all terminated_message p.pending);
      }))
    ∙ fail_opens-fresh terminated_message p.pending (halted p) refl refl

-- terminate() leaves the proxy torn down. In particular the comment that it installs a fresh pending
-- `ready` fails if an openStore is in flight: the fresh promise is rejected too.
pub terminate-IsTorn : (p : Proxy) → IsTorn p (terminate p)
terminate-IsTorn p = elim (Bool-cases (has_open p.pending)) [
  | inl in_flight ↦
      rw (terminate_lem p, in_flight)
        (record {
          no_worker = refl;
          none_pending = refl;
          none_waiting = refl;
          closed = refl;
          new_ready = rw in_flight;
          shown = shown_lem p;
        })
  | inr idle ↦
      rw (terminate_lem p, idle)
        (record {
          no_worker = refl;
          none_pending = refl;
          none_waiting = refl;
          closed = refl;
          new_ready = rw idle;
          shown = shown_lem p;
        })
]
