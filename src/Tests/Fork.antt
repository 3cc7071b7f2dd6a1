-- ===== src/Tests/Fork.antt =====
-- A fork in a conversation of two messages, with an endless supply of ids.
use caladon.Store.Tables.{empty_tables}
use caladon.Store.Rows.{MessageRow}
use caladon.Store.Action.{Env, World}
use Prim.Native.Char.{code}
use caladon.Prelude.{ℕ, zero, suc, String, true, false, none, some, [], ◌∷◌}

-- a text of n + 1 letters
xs : ℕ → String
xs zero = "x"
xs (suc n) = String.◌∷◌ "x" (xs n)

size : String → ℕ
size String.[] = 0
size (String.◌∷◌ c s) = suc (size s)

initial : String → ℕ
initial String.[] = 0
initial (String.◌∷◌ c s) = code c

abbrev supply : Env
supply = record {
  fault = λ n. false;
  time = λ n. n;
  fresh_id = xs;
  parse_json = λ s. none;
  stringify = λ j. "{}";
  text_le = λ a b. true;
}

abbrev source_row : String → ℕ → MessageRow
source_row id now = record {
  message_id = id;
  conversation_id = "c";
  parent_message_id = none;
  is_created_by_user = 1;
  text = id;
  content_json = none;
  model = none;
  created_at = now;
  updated_at = now;
}

abbrev forking : World
forking = record {
  tables = record empty_tables {
    conversations =
        record {
          conversation_id = "c";
          title = none;
          endpoint = none;
          model = none;
          created_at = 1;
          updated_at = 1;
          convo_json = "{}";
        }
        ∷ [];
    messages =
        source_row "m1" 1 ∷ record (source_row "m2" 2) { parent_message_id = some "m1" } ∷ [];
  };
  tick = 0;
}
