-- ===== src/Proxy/Settlement.antt =====
-- client.ts: when a call is settled, and what an openStore does for a rejected `ready`.
use caladon.Store.Requests.{init}
use caladon.Table.Laws.{find-delete, find-upsert, merged}
use caladon.Table.{delete, find}
use caladon.Store.Responses.{OkResponse, StoreResponse, error_response, ok_response, response_id}
use caladon.Proxy.{
  Caller, Op, Proxy, method_call, open_call, rejected_ready, Event, Host, call, emit, next_counter,
  on_message, open_store, pending_key, rejected, request_id_of, resolved, send, settle_call,
  refused, replace,
}
use caladon.Prelude.{
  String, [], false, refl, true, ◌∷◌, ◌≡◌, arith, ◌++◌, eq_refl, none, some, Option,
}

-- how a method's call is settled by a response
unfoldable pub settlement : String → StoreResponse → Event
settlement id (error_response r) = rejected id r.message
settlement id res = resolved id res

abbrev init_op : String → Op
init_op hex_key id = init (record { request_id = id; hex_key = hex_key })

merged-replace :
    (e : String × Caller) (o : Option (String × Caller)) → merged pending_key replace e o ≡ e
unfolding merged
merged-replace e none = refl
merged-replace e (some x) = refl

-- The store counts as open, and a method is refused all the same.
pub record IsRefusing (host : Host) (op : Op) (m : String) (q : Proxy) : Type 0 where
  pub open_store : q.opened ≡ true
  pub not_ready : q.ready ≡ rejected_ready m
  pub refuses : call host op q ≡ emit (refused op m) q

module _ (host : Host) where
  pub settle_method :
      (id : String) (res : StoreResponse) (p : Proxy)
      → settle_call host id method_call res p ≡ emit (settlement id res) p
  unfolding settle_call settlement
  settle_method id (error_response r) p = refl
  settle_method id _ p = refl

  pub on_message_found :
      (res : StoreResponse) (id : String) (caller : Caller) (p : Proxy)
      → find pending_key (response_id res) p.pending ≡ some (id, caller)
      → on_message host res p
        ≡ settle_call host id caller res
            (record p { pending = delete pending_key (response_id res) p.pending })
  unfolding on_message
  on_message_found res id caller p found = ground arith

  -- A response that no entry waits for changes nothing.
  pub on_message_absent :
      (res : StoreResponse) (p : Proxy)
      → find pending_key (response_id res) p.pending ≡ none
      → on_message host res p ≡ p
  unfolding on_message
  on_message_absent res p absent = ground arith

  -- A method's call is settled once: when its response has come its id is not pending any more, the
  -- log shows one event more, the rejection by the response's message or the resolution with it, and
  -- a second response with that id changes nothing. Needed: the entry is a method's.
  pub on_message-once :
      (res : StoreResponse) (id : String) (p : Proxy)
      → find pending_key (response_id res) p.pending ≡ some (id, method_call)
      → (find pending_key (response_id res) (on_message host res p).pending ≡ none)
        × ((on_message host res p).log ≡ p.log ++ settlement id res ∷ [])
        × (on_message host res (on_message host res p) ≡ on_message host res p)
  on_message-once res id p found =
      let gone : find pending_key (response_id res) (delete pending_key (response_id res) p.pending)
          ≡ none =
        rw (
          find-delete pending_key (response_id res) (response_id res) p.pending,
          eq_refl (response_id res),
        ) in
      rw
        (
          on_message_found res id method_call p found,
          settle_method id res
              (record p { pending = delete pending_key (response_id res) p.pending }),
        )
        (
          gone,
          refl,
          on_message_absent res
              (emit (settlement id res)
                (record p { pending = delete pending_key (response_id res) p.pending }))
              gone,
        )

  open_store_lem :
      (hex_key : String) (p : Proxy)
      → p.opened ≡ false
      → open_store host hex_key p ≡ send host (init_op hex_key) open_call p
  unfolding open_store send
  open_store_lem hex_key p closed = ground arith

  settle_open_rejected :
      (id m : String) (o : OkResponse) (q : Proxy)
      → q.ready ≡ rejected_ready m
      → settle_call host id open_call (ok_response o) q
        ≡ record (emit (resolved id (ok_response o)) q) { opened = true }
  unfolding settle_call
  settle_open_rejected id m o q h = ground arith

  call_rejected :
      (op : Op) (m : String) (q : Proxy)
      → q.ready ≡ rejected_ready m
      → call host op q ≡ emit (refused op m) q
  unfolding call
  call_rejected op m q h = ground arith

  -- A rejected `ready` is not healed by another openStore: after its INIT has succeeded the store
  -- counts as open, but `ready` is still rejected, and every method is refused without a message
  -- being posted. Needed: the store is not open and the id of the INIT is not pending.
  pub reopen_refuses :
      (hex_key m : String) (o : OkResponse) (op : Op) (p : Proxy)
      → p.ready ≡ rejected_ready m
      → p.opened ≡ false
      → o.request_id ≡ request_id_of host (next_counter host p)
      → IsRefusing host op m (on_message host (ok_response o) (open_store host hex_key p))
  reopen_refuses hex_key m o op p failed closed same =
      let id = request_id_of host (next_counter host p) in
      let sent = send host (init_op hex_key) open_call p in
      let found : find pending_key o.request_id sent.pending ≡ some (id, open_call) =
        unfold send in
        rw (
          same,
          find-upsert pending_key replace (λ x r. refl) id (id, open_call) p.pending,
          eq_refl id,
          merged-replace (id, open_call) (find pending_key id p.pending),
        ) in
      let base = record sent { pending = delete pending_key o.request_id sent.pending } in
      let base_failed : base.ready ≡ rejected_ready m = unfold send in failed in
      rw
        (
          open_store_lem hex_key p closed,
          on_message_found (ok_response o) id open_call sent found,
          settle_open_rejected id m o base base_failed,
        )
        (record {
          open_store = refl;
          not_ready = base_failed;
          refuses =
              call_rejected op m
                (record (emit (resolved id (ok_response o)) base) { opened = true }) base_failed;
        })
