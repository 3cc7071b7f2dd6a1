-- ===== src/Proxy/Channel.antt =====
-- client.ts together with store.worker.ts: the responses that the worker posts for a queue of
-- requests come back to the proxy in their order.
use caladon.Prelude.{
  ◌≡◌, refl, ap, ◌⊎◌, ◌≢◌, ◌∙◌, subst, arith, String, ◌==◌, eq_iff, eq_refl, Bool, true, false,
  ◌||◌, Bool-cases, inl, inr, Option-cases, none, some, List, [], ◌∷◌, ◌++◌, All, map,
}
use caladon.Table.{find, delete}
use caladon.Table.Laws.{find-delete, All-delete_where}
use caladon.Store.Requests.{StoreRequest}
use caladon.Store.Responses.{StoreResponse, error_response, response_id}
use caladon.Store.Fork.{mem_text}
use caladon.Store.Worker.{Worker, Engine}
use caladon.Store.Worker.Handler.{drain, request_id}
use caladon.Store.Worker.Answers.{drain-answers}
use caladon.Proxy.{
  Caller, method_call, Event, resolved, rejected, Host, Proxy, on_message, pending_key, emit,
}
use caladon.Proxy.Settlement.{settlement, settle_method, on_message_found, on_message_absent}

module _ (host : Host) where
  -- worker.onmessage, for each response in turn
  unfoldable pub deliver : List StoreResponse → Proxy → Proxy
  deliver [] p = p
  deliver (res ∷ rest) p = deliver rest (on_message host res p)

-- No openStore is in flight.
abbrev pub MethodsOnly : Proxy → Type 0
MethodsOnly p = All (λ c. c.1 ≡ method_call) p.pending

-- Whether the log shows the settlement of the call with the id.
abbrev pub settles : String → Event → Bool
settles id (resolved k res) = k == id
settles id (rejected k message) = k == id
settles id _ = false

unfoldable pub is_settled : String → List Event → Bool
is_settled id [] = false
is_settled id (e ∷ es) = settles id e || is_settled id es

is_settled-append :
    (id : String) (xs ys : List Event) → is_settled id xs ≡ true → is_settled id (xs ++ ys) ≡ true
unfolding is_settled
is_settled-append id [] ys h = absurd (ground arith)
is_settled-append id (x ∷ xs) ys h = ground (arith, is_settled-append id xs ys)

is_settled-last :
    (id : String) (xs : List Event) (res : StoreResponse)
    → is_settled id (xs ++ settlement id res ∷ []) ≡ true
unfolding is_settled settlement
is_settled-last id [] (error_response r) = ground (arith, eq_refl id)
is_settled-last id [] _ = ground (arith, eq_refl id)
is_settled-last id (x ∷ xs) res = ground (arith, is_settled-last id xs res)

same_entry :
    (x c : String × Caller) (k : String)
    → x.1 ≡ method_call
    → x.0 ≡ k
    → some x ≡ some c
    → (c.0 ≡ k) × (c.1 ≡ method_call)
same_entry x c k m e f =
    let same : x ≡ c = cc in subst (λ y. (y.0 ≡ k) × (y.1 ≡ method_call)) same (e, m)

-- the caller that is found for an id
find-MethodsOnly :
    (k : String) (es : List (String × Caller)) (c : String × Caller)
    → All (λ x. x.1 ≡ method_call) es
    → find pending_key k es ≡ some c
    → (c.0 ≡ k) × (c.1 ≡ method_call)
unfolding find
find-MethodsOnly k [] c h f = absurd (ground arith)
find-MethodsOnly k (x ∷ es) c h f = elim (Bool-cases (x.0 == k)) [
  | inl this ↦ same_entry x c k h.0 (ground (arith, eq_iff x.0 k)) (rw this at f)
  | inr other ↦ find-MethodsOnly k es c h.1 (rw other at f)
]

abbrev settled_by : StoreResponse → Proxy → Proxy
settled_by res p =
    emit (settlement (response_id res) res)
      (record p { pending = delete pending_key (response_id res) p.pending })

delivered_MethodsOnly :
    (res : StoreResponse) (p : Proxy) → MethodsOnly p → MethodsOnly (settled_by res p)
unfolding delete
delivered_MethodsOnly res p h =
    All-delete_where (λ c. c.1 ≡ method_call) (λ c. pending_key c == response_id res) (λ c k _. k)
      p.pending h

module _ (host : Host) where
  on_message_method :
      (res : StoreResponse) (p : Proxy) (id : String) (caller : Caller)
      → id ≡ response_id res
      → caller ≡ method_call
      → find pending_key (response_id res) p.pending ≡ some (id, caller)
      → on_message host res p ≡ settled_by res p
  on_message_method res p id caller same m found =
      let q = record p { pending = delete pending_key (response_id res) p.pending } in
      on_message_found host res id caller p found
      ∙ (rw (m, same) (settle_method host (response_id res) res q))

  on_message_cases :
      (res : StoreResponse) (p : Proxy)
      → MethodsOnly p
      → ((find pending_key (response_id res) p.pending ≡ none) × (on_message host res p ≡ p))
        ⊎ (on_message host res p ≡ settled_by res p)
  on_message_cases res p h = elim (Option-cases (find pending_key (response_id res) p.pending)) [
    | inl absent ↦ inl (absent, on_message_absent host res p absent)
    | inr ((id, caller), found) ↦
        let same = find-MethodsOnly (response_id res) p.pending (id, caller) h found in
        inr (on_message_method res p id caller same.0 same.1 found)
  ]

  deliver_step :
      (res : StoreResponse) (rs : List StoreResponse) (p q : Proxy)
      → on_message host res p ≡ q
      → deliver host (res ∷ rs) p ≡ deliver host rs q
  unfolding deliver
  deliver_step res rs p q h = ap (deliver host rs) h

  -- A call that is settled stays so.
  deliver_settled :
      (rs : List StoreResponse) (p : Proxy) (id : String)
      → MethodsOnly p
      → is_settled id p.log ≡ true
      → find pending_key id p.pending ≡ none
      → (is_settled id (deliver host rs p).log ≡ true)
        × (find pending_key id (deliver host rs p).pending ≡ none)
  unfolding deliver
  deliver_settled [] p id h s f = (s, f)
  deliver_settled (res ∷ rs) p id h s f = elim (on_message_cases res p h) [
    | inl (_, same) ↦ rw (deliver_step res rs p p same) (deliver_settled rs p id h s f)
    | inr by ↦ rw (deliver_step res rs p (settled_by res p) by) (
        deliver_settled rs (settled_by res p) id (delivered_MethodsOnly res p h)
          (is_settled-append id p.log _ s)
          (rw (find-delete pending_key id (response_id res) p.pending, f) (ground arith)))
  ]

  no_entry :
      (res : StoreResponse) (p : Proxy) (id : String)
      → (response_id res == id) ≡ true
      → find pending_key id p.pending ≡ some (id, method_call)
      → find pending_key (response_id res) p.pending ≢ none
  no_entry res p id this f absent = ground (arith, eq_iff (response_id res) id)

  -- Every call whose response is among those delivered is settled.
  deliver_settles :
      (rs : List StoreResponse) (p : Proxy) (id : String)
      → MethodsOnly p
      → find pending_key id p.pending ≡ some (id, method_call)
      → mem_text id (map response_id rs) ≡ true
      → (is_settled id (deliver host rs p).log ≡ true)
        × (find pending_key id (deliver host rs p).pending ≡ none)
  unfolding deliver mem_text
  deliver_settles [] p id h f m = absurd (ground arith)
  deliver_settles (res ∷ rs) p id h f m = elim (Bool-cases (response_id res == id)) [
    | inl this ↦ elim (on_message_cases res p h) [
      | inl (absent, _) ↦ absurd (no_entry res p id this f absent)
      | inr by ↦ rw (deliver_step res rs p (settled_by res p) by) (
          deliver_settled rs (settled_by res p) id (delivered_MethodsOnly res p h)
            (subst (λ k. is_settled k (settled_by res p).log ≡ true)
              (ground (arith, eq_iff (response_id res) id))
              (is_settled-last (response_id res) p.log res))
            (rw (find-delete pending_key id (response_id res) p.pending, this) refl))
    ]
    | inr other ↦ elim (on_message_cases res p h) [
      | inl (_, same) ↦
          rw (deliver_step res rs p p same) (deliver_settles rs p id h f (ground arith))
      | inr by ↦ rw (deliver_step res rs p (settled_by res p) by) (
          deliver_settles rs (settled_by res p) id (delivered_MethodsOnly res p h)
            (rw (find-delete pending_key id (response_id res) p.pending, other) f) (ground arith))
    ]
  ]

  -- A call of a method whose request is in the worker's queue is settled in the end: after the worker
  -- has run the queue and its responses have been delivered, the log shows the call's resolution or
  -- its rejection, and its id is not pending any more, whatever fails in the worker. Needed: no
  -- openStore is in flight.
  pub deliver-drain :
      (e : Engine) (reqs : List StoreRequest) (w : Worker) (p : Proxy) (id : String)
      → MethodsOnly p
      → find pending_key id p.pending ≡ some (id, method_call)
      → mem_text id (map request_id reqs) ≡ true
      → (is_settled id (deliver host (drain e reqs w).0 p).log ≡ true)
        × (find pending_key id (deliver host (drain e reqs w).0 p).pending ≡ none)
  deliver-drain e reqs w p id h f m =
      deliver_settles (drain e reqs w).0 p id h f (rw (drain-answers e reqs w) m)
