-- ===== src/Tests/Worker.antt =====
-- The worker on a small engine, and the proxy beside it.
use caladon.Prelude.{◌≡◌, refl, String, Bool, true, false, none, some, List, [], ◌∷◌, map}
use caladon.Sdk.Text.{Text, codes}
use caladon.Store.Tables.{empty_tables, IsConsistent-empty}
use caladon.Store.Action.{Env, Failure, not_open}
use caladon.Store.Requests.{StoreRequest}
use caladon.Store.Responses.{response_id}
use caladon.Store.Search.{tokens}
use caladon.Store.Worker.{Worker, Engine, absent}
use caladon.Store.Worker.Handler.{drain, serve, ok_with}
use caladon.Store.Worker.Answers.{drain-answers}
use caladon.Store.Worker.Soundness.{IsSound}
use caladon.Store.Worker.Invariant.{drain-IsSound}
use caladon.Store.Worker.Memories.{drain-Refines, IsReady}
use caladon.Store.Worker.Memories.Spec.{notes_of, note_run}
use caladon.Store.Worker.Opening.{NeedsStore, serve-closed, refusal}
use caladon.Table.{find}
use caladon.Store.Fork.{mem_text}
use caladon.Proxy.{Host, Proxy, method_call, pending_key, awaited}
use caladon.Proxy.Channel.{deliver, deliver-drain, is_settled}

abbrev quiet_env : Env
quiet_env = record {
  fault = λ n. false;
  time = λ n. n;
  fresh_id = λ n. "fresh";
  parse_json = λ s. none;
  stringify = λ j. "{}";
  text_le = λ a b. true;
}

-- An engine in memory, with and without FTS5.
abbrev engine_with : Bool → Engine
engine_with fts5 = record {
  env = quiet_env;
  dynamic = record { text_of = λ j. "?"; date_parse = λ s. none; column_text = λ j. none };
  fts = record { matches = λ q t. []; rank_gt = λ a b. false };
  code_units = λ s. codes s;
  digest = λ s. [];
  message = λ f. "failed";
  has_init = true;
  has_fts5 = fts5;
  isolated = false;
  installs_pool = false;
  unlinks = false;
  wipes = false;
  has_old_shape = λ f. false;
  on_incomplete = λ m. m;
  incomplete_file = λ f v. f;
}

abbrev engine_ok : Engine
engine_ok = engine_with true

abbrev fresh_worker : Worker
fresh_worker = record {
  db = none;
  persistent = false;
  pool = false;
  files = λ f. absent;
  world = record { tables = empty_tables; tick = 0 };
}

abbrev ready_worker : Worker
ready_worker = record fresh_worker { db = some (record { file = none; complete = true }) }

abbrev init_request : String → StoreRequest
init_request id = StoreRequest.init (record { request_id = id; hex_key = "00" })

abbrev remember : String → String → StoreRequest
remember key value =
    StoreRequest.upsert_memory
      (record { request_id = "r2_t"; key = key; value = value; previous_key = none })

abbrev requests : List StoreRequest
requests = init_request "r1_t" ∷ remember "pet" "cat" ∷ []

drain-answers_example :
    map response_id (drain engine_ok requests fresh_worker).0 ≡ "r1_t" ∷ "r2_t" ∷ []
drain-answers_example = drain-answers engine_ok requests fresh_worker

drain-IsSound_example : IsSound (drain engine_ok requests fresh_worker).1
drain-IsSound_example =
    drain-IsSound engine_ok requests fresh_worker
      (record { files = λ f k. IsConsistent-empty; db = tt; stored = tt })

drain-Refines_example :
    IsReady (drain engine_ok requests ready_worker).1
    × ((k : String)
        → notes_of (drain engine_ok requests ready_worker).1.world.tables k
          ≡ note_run requests (notes_of empty_tables) k)
drain-Refines_example =
    drain-Refines engine_ok requests ready_worker (λ n. refl)
      (record { file = none; complete = true }, refl, refl)

serve-closed_example :
    serve engine_ok (remember "pet" "cat") fresh_worker
    ≡ (refusal engine_ok "r2_t" not_open, fresh_worker)
unfolding NeedsStore
serve-closed_example = serve-closed engine_ok fresh_worker refl (remember "pet" "cat") tt

abbrev search_text : Text
search_text = codes "cat* AND (dog)"

tokens-search_text : tokens search_text ≡ codes "cat" ∷ codes "AND" ∷ codes "dog" ∷ []
unfolding tokens
tokens-search_text = refl

-- An INIT that fails after the connection was opened leaves it: the next INIT is answered with OK.
init_twice :
    (serve
      (engine_with false)
      (init_request "b")
      (serve (engine_with false) (init_request "a") fresh_worker).1).0
    ≡ ok_with "b" none
unfolding serve
init_twice = refl

init_fails :
    (serve (engine_with false) (init_request "a") fresh_worker).0
    ≡ refusal (engine_with false) "a" Failure.unsupported
unfolding serve
init_fails = refl

abbrev host : Host
host = record { decimal = λ n. "1"; base36 = λ n. "t"; time = λ n. n }

abbrev waiting_proxy : Proxy
waiting_proxy = record {
  worker = true;
  pending = ("r2_t", method_call) ∷ [];
  opened = true;
  ready = awaited;
  waiting = [];
  counter = 2;
  log = [];
}

deliver-drain_example :
    (is_settled "r2_t" (deliver host (drain engine_ok requests fresh_worker).0 waiting_proxy).log
      ≡ true)
    × (find pending_key "r2_t"
          (deliver host (drain engine_ok requests fresh_worker).0 waiting_proxy).pending
        ≡ none)
unfolding find mem_text
deliver-drain_example =
    deliver-drain host engine_ok requests fresh_worker waiting_proxy "r2_t" (refl, tt) refl refl
