-- ===== src/Proxy.antt =====
-- web-client/overlay/client/src/lib/store/client.ts: StoreProxy, which sends the requests to the
-- worker and settles the callers' promises when the responses come back.
-- A step is one task of the event loop with the microtasks that it leads to. What a step shows to
-- the outside, a message posted or a promise settled, is appended to the log.
pub mod Methods
pub mod Termination
pub mod Settlement
pub mod Channel
use caladon.Store.Responses.{StoreResponse, error_response, response_id}
use caladon.Store.Requests.{StoreRequest, init}
use caladon.Prelude.{
  Bool, List, String, [], false, if◌then◌else◌, none, some, true, ℕ, ◌%◌, ◌++◌, ◌+◌, ◌-◌, ◌^◌, ◌∷◌,
}
use Prim.Native.String.{◌++◌ as text_append}
use caladon.Table.{find, upsert, delete}

-- The state of the promise `ready`.
pub data Ready : Type 0 where
  awaited resolved_ready : Ready
  rejected_ready : String → Ready

-- What a pending entry belongs to: openStore, which goes on when its INIT is settled, or a method.
pub data Caller : Type 0 where
  open_call method_call : Caller

-- A method past its `await this.ready`: its request, but for the id that it will be given.
abbrev pub Op : Type 0
Op = String → StoreRequest

pub data Event : Type 0 where
  posted : StoreRequest → Event
  resolved : String → StoreResponse → Event
  rejected : String → String → Event
  -- a method whose `await this.ready` rejects
  refused : Op → String → Event
  worker_terminated : Event

pub record Proxy : Type 0 where
  -- whether this.worker is not null
  pub worker : Bool
  pub pending : List (String × Caller)
  pub opened : Bool
  pub ready : Ready
  -- the methods that await `ready`, in their order
  pub waiting : List Op
  -- the module's `counter`
  pub counter : ℕ
  pub log : List Event

-- How JavaScript writes a number, in base 10 and in base 36, and Date.now() when the counter is n.
pub record Host : Type 0 where
  pub decimal : ℕ → String
  pub base36 : ℕ → String
  pub time : ℕ → ℕ

-- Number.MAX_SAFE_INTEGER
abbrev pub max_safe_integer : ℕ
max_safe_integer = 2 ^ 53 - 1

-- new StoreProxy(); the counter is the module's and goes on.
abbrev pub new_proxy : ℕ → Proxy
new_proxy n = record {
  worker = false;
  pending = [];
  opened = false;
  ready = awaited;
  waiting = [];
  counter = n;
  log = [];
}

abbrev pub pending_key : String × Caller → String
pending_key e = e.0

abbrev pub replace : String × Caller → String × Caller → String × Caller
replace old new = new

abbrev pub emit : Event → Proxy → Proxy
emit e p = record p { log = p.log ++ e ∷ [] }

unfoldable pub reject_all : String → List (String × Caller) → List Event
reject_all message [] = []
reject_all message ((id, _) ∷ es) = rejected id message ∷ reject_all message es

unfoldable pub refuse_all : String → List Op → List Event
refuse_all message [] = []
refuse_all message (op ∷ ops) = refused op message ∷ refuse_all message ops

-- this.rejectReady(err): a promise that is settled stays as it is.
unfoldable pub reject_ready : String → Proxy → Proxy
unfolding refuse_all
reject_ready message p = elim p.ready [
  | awaited ↦ record p {
    ready = rejected_ready message;
    waiting = [];
    log = p.log ++ refuse_all message p.waiting;
  }
  | resolved_ready ↦ p
  | rejected_ready _ ↦ p
]

-- The `catch` of every openStore among the entries, run when they are rejected.
unfoldable pub fail_opens : String → List (String × Caller) → Proxy → Proxy
unfolding reject_ready
fail_opens message [] p = p
fail_opens message ((id, open_call) ∷ es) p = fail_opens message es (reject_ready message p)
fail_opens message ((id, method_call) ∷ es) p = fail_opens message es p

module _ (host : Host) where
  -- nextRequestId(), with `counter` already counted up
  unfoldable pub request_id_of : ℕ → String
  request_id_of n =
      text_append "r" (text_append (host.decimal n) (text_append "_" (host.base36 (host.time n))))

  abbrev pub next_counter : Proxy → ℕ
  next_counter p = (p.counter + 1) % max_safe_integer

  -- send(req): the worker is spawned if there is none, the promise is registered, the message posted.
  unfoldable pub send : Op → Caller → Proxy → Proxy
  unfolding request_id_of
  send op caller p =
      let id = request_id_of (next_counter p) in
      record p {
        worker = true;
        counter = next_counter p;
        pending = upsert pending_key replace (id, caller) p.pending;
        log = p.log ++ posted (op id) ∷ [];
      }

  unfoldable pub send_all : List Op → Proxy → Proxy
  unfolding send
  send_all [] p = p
  send_all (op ∷ ops) p = send_all ops (send op method_call p)

  -- this.resolveReady(): the methods that await it go on, in their order.
  unfoldable pub resolve_ready : Proxy → Proxy
  unfolding send_all
  resolve_ready p = elim p.ready [
    | awaited ↦ send_all p.waiting (record p { ready = resolved_ready; waiting = [] })
    | resolved_ready ↦ p
    | rejected_ready _ ↦ p
  ]

  -- openStore(hexKey)
  unfoldable pub open_store : String → Proxy → Proxy
  unfolding send
  open_store hex_key p =
      if p.opened
      then p
      else send (λ id. init (record { request_id = id; hex_key = hex_key })) open_call p

  -- every other method: `await this.ready; await this.send(…)`
  unfoldable pub call : Op → Proxy → Proxy
  unfolding send
  call op p = elim p.ready [
    | awaited ↦ record p { waiting = p.waiting ++ op ∷ [] }
    | resolved_ready ↦ send op method_call p
    | rejected_ready message ↦ emit (refused op message) p
  ]

  -- p.resolve(res), and openStore past its await
  unfoldable pub resolve_call : String → Caller → StoreResponse → Proxy → Proxy
  unfolding resolve_ready
  resolve_call id open_call res p =
      resolve_ready (record (emit (resolved id res) p) { opened = true })
  resolve_call id method_call res p = emit (resolved id res) p

  -- p.reject(err), and the `catch` of openStore
  unfoldable pub reject_call : String → Caller → String → Proxy → Proxy
  unfolding reject_ready
  reject_call id open_call message p = reject_ready message (emit (rejected id message) p)
  reject_call id method_call message p = emit (rejected id message) p

  unfoldable pub settle_call : String → Caller → StoreResponse → Proxy → Proxy
  unfolding resolve_call reject_call
  settle_call id caller (error_response r) p = reject_call id caller r.message p
  settle_call id caller res p = resolve_call id caller res p

  -- worker.onmessage
  unfoldable pub on_message : StoreResponse → Proxy → Proxy
  unfolding settle_call
  on_message res p = elim (find pending_key (response_id res) p.pending) [
    | none ↦ p
    | some (id, caller) ↦
        settle_call id caller res
          (record p { pending = delete pending_key (response_id res) p.pending })
  ]

-- worker.onerror; `message` is the whole text of the error.
unfoldable pub on_error : String → Proxy → Proxy
unfolding reject_all fail_opens
on_error message p =
    fail_opens message p.pending
      (record p { pending = []; log = p.log ++ reject_all message p.pending })

abbrev pub terminated_message : String
terminated_message = "store proxy terminated"

unfoldable pub stop_worker : Proxy → List Event
stop_worker p = if p.worker then worker_terminated ∷ [] else []

-- terminate(): the old `ready` is rejected and a fresh one installed; the rejected calls go on only
-- then, so the `catch` of an openStore in flight finds the fresh one.
unfoldable pub terminate : Proxy → Proxy
unfolding stop_worker reject_all reject_ready fail_opens
terminate p =
    let stopped = record p {
      worker = false;
      pending = [];
      opened = false;
      log = p.log ++ (stop_worker p ++ reject_all terminated_message p.pending);
    } in
    fail_opens terminated_message p.pending
      (record (reject_ready terminated_message stopped) { ready = awaited; waiting = [] })
