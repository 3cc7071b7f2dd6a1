-- ===== src/Tests/Proxy.antt =====
-- The proxy with calls in flight.
use caladon.Store.Responses.{StoreResponse, ok_response}
use caladon.Store.Requests.{StoreRequest}
use caladon.Proxy.Termination.{IsTorn, terminate-IsTorn}
use caladon.Proxy.Settlement.{IsRefusing, on_message-once, reopen_refuses, settlement}
use caladon.Prelude.{String, true, false, none, [], ◌∷◌, ◌++◌, ◌≡◌, refl}
use caladon.Proxy.{
  terminate, open_store, Caller, Host, Op, Proxy, awaited, method_call, new_proxy, on_message,
  open_call, pending_key, rejected_ready, request_id_of,
}
use caladon.Table.{find}

abbrev host : Host
host = record { decimal = λ n. "1"; base36 = λ n. "t"; time = λ n. n }

-- A store that is open, with one call in flight.
abbrev waiting_for : String → Caller → Proxy
waiting_for id caller = record {
  worker = true;
  pending = (id, caller) ∷ [];
  opened = false;
  ready = awaited;
  waiting = [];
  counter = 1;
  log = [];
}

abbrev done_response : StoreResponse
done_response = ok_response (record { request_id = "r1_t"; result = none })

abbrev clear_op : Op
clear_op id = StoreRequest.clear_all (record { request_id = id })

terminate-IsTorn_example :
    IsTorn (waiting_for "r1_t" open_call) (terminate (waiting_for "r1_t" open_call))
terminate-IsTorn_example = terminate-IsTorn (waiting_for "r1_t" open_call)

on_message-once_example :
    (find pending_key "r1_t"
        (on_message host done_response (waiting_for "r1_t" method_call)).pending
      ≡ none)
    × ((on_message host done_response (waiting_for "r1_t" method_call)).log
        ≡ [] ++ settlement "r1_t" done_response ∷ [])
    × (on_message host done_response
          (on_message host done_response (waiting_for "r1_t" method_call))
        ≡ on_message host done_response (waiting_for "r1_t" method_call))
unfolding find
on_message-once_example =
    on_message-once host done_response "r1_t" (waiting_for "r1_t" method_call) refl

abbrev torn : Proxy
torn = record (new_proxy 0) { ready = rejected_ready "store proxy terminated" }

reopen_refuses_example :
    IsRefusing host clear_op "store proxy terminated"
      (on_message host done_response (open_store host "key" torn))
unfolding request_id_of
reopen_refuses_example =
    reopen_refuses host "key" "store proxy terminated"
      (record { request_id = "r1_t"; result = none }) clear_op torn refl refl refl
