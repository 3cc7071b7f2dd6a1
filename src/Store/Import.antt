-- ===== src/Store/Import.antt =====
-- store.worker.ts, importChatExport, extractText and toMs: an export of loose shape becomes rows.
use Prim.Native.String.{◌++◌ as text_append}
use caladon.Prelude.{
  ℕ, String, ◌==◌, eqb, Bool, true, false, not, Option, none, some, if◌then◌else◌, List, [], ◌∷◌,
}
use caladon.Store.Rows.{StoredConversation, StoredMessage, message_to_row}
use caladon.Store.Tables.{Tables}
use caladon.Store.Action.{
  Env, Json, Items, Fields, null, bool, num, str, arr, obj, nil, cons, end, field, Outcome, ok,
  throw, engine, type_error, Action, pure, fail, ◌>>=◌, ◌>>◌, run, date_now, random_id, tx,
}
use caladon.Store.Turns.{insert_convo, insert_message}

-- What JavaScript and the driver do with a value that is no text.
pub record Dynamic : Type 0 where
  -- String(v)
  pub text_of : Json → String
  -- Date.parse(s), where it is no NaN
  pub date_parse : String → Option ℕ
  -- what a TEXT column stores for a number or a boolean; the driver refuses to bind an object
  pub column_text : Json → Option String

-- A property that is null counts as one that is missing: the code reads each with `??`, `!= null`
-- or a test that neither passes.
abbrev pub defined : Json → Option Json
defined null = none
defined j = some j

unfoldable pub get_field : String → Fields → Option Json
get_field k end = none
get_field k (field j v fs) = let rest = get_field k fs in if j == k then defined v else rest

-- `!raw || typeof raw !== 'object'`: an array is an object without these properties.
unfoldable pub record_fields : Json → Option Fields
record_fields (obj fs) = some fs
record_fields (arr xs) = some end
record_fields j = none

-- The properties of a value that the code does not test: those of null cannot be read.
unfoldable pub member_fields : Json → Option Fields
member_fields null = none
member_fields (obj fs) = some fs
member_fields j = some end

-- Array.isArray(v) ? v : []
abbrev pub items_or_none : Option Json → Items
items_or_none (some (arr xs)) = xs
items_or_none _ = nil

-- Boolean(v)
unfoldable pub is_truthy : Json → Bool
is_truthy null = false
is_truthy (bool b) = b
is_truthy (num n) = not (eqb n 0)
is_truthy (str s) = not (s == "")
is_truthy (arr xs) = true
is_truthy (obj fs) = true

abbrev pub is_text : String → Option Json → Bool
is_text s (some (str t)) = t == s
is_text s _ = false

-- m.isCreatedByUser ?? m.sender === 'User'
unfoldable pub created_by_user : Fields → Bool
unfolding get_field is_truthy
created_by_user fs = elim (get_field "isCreatedByUser" fs) [
  | some j ↦ is_truthy j
  | none ↦ is_text "User" (get_field "sender" fs)
]

-- The text of one part: a text, or an object with a text `value`.
unfoldable pub value_text : Option Json → Option String
unfolding get_field
value_text (some (str s)) = some s
value_text (some (obj fs)) = elim (get_field "value" fs) [ some (str s) ↦ some s | _ ↦ none ]
value_text _ = none

unfoldable pub part_text : Option Fields → Option String
unfolding get_field value_text
part_text none = none
part_text (some fs) = value_text (get_field "text" fs)

abbrev pub push_text : Option String → List String → List String
push_text none parts = parts
push_text (some s) parts = s ∷ parts

unfoldable pub text_parts : Items → List String
unfolding record_fields part_text
text_parts nil = []
text_parts (cons part rest) = push_text (part_text (record_fields part)) (text_parts rest)

-- parts.join('\n')
unfoldable pub join_lines : List String → String
join_lines [] = ""
join_lines (s ∷ []) = s
join_lines (s ∷ t ∷ rest) = text_append s (text_append "\n" (join_lines (t ∷ rest)))

-- extractText(content)
unfoldable pub extract_text : Items → String
unfolding text_parts join_lines
extract_text content = join_lines (text_parts content)

-- The text of a message: its own, or that of its content.
unfoldable pub message_text : Option Json → Option Json → String
unfolding extract_text
message_text (some (str s)) content = s
message_text own (some (arr xs)) = extract_text xs
message_text own content = ""

abbrev pub or_else : {A : Type 0} → Option A → A → A
or_else none d = d
or_else (some a) d = a

abbrev pub and_then : {A B : Type 0} → Outcome A → (A → Outcome B) → Outcome B
and_then (ok a) f = f a
and_then (throw e) f = throw e

-- A statement whose values are bound first.
unfoldable pub bound_statement :
    {A : Type 0} → (A → Tables → Outcome Tables) → Outcome A → Tables → Outcome Tables
bound_statement s (ok a) t = s a t
bound_statement s (throw e) t = throw e

module _ (d : Dynamic) where
  -- String(v)
  unfoldable pub string_of : Json → String
  string_of (str s) = s
  string_of j = d.text_of j

  -- toMs(v)
  unfoldable pub to_ms : Option Json → Option ℕ
  unfolding string_of
  to_ms none = none
  to_ms (some (num n)) = some n
  to_ms (some j) = d.date_parse (string_of j)

  -- A value bound to a TEXT column: `(v as string | null) ?? null`.
  unfoldable pub bind_text : Option Json → Outcome (Option String)
  bind_text none = ok none
  bind_text (some (str s)) = ok (some s)
  bind_text (some j) = elim (d.column_text j) [ some s ↦ ok (some s) | none ↦ throw engine ]

  module _ (env : Env) where
    unfoldable pub imported_convo : String → ℕ → Json → Fields → Outcome StoredConversation
    unfolding get_field to_ms bind_text
    imported_convo id now raw fs = and_then (bind_text (get_field "title" fs)) (λ title.
        and_then (bind_text (get_field "endpoint" fs)) (λ endpoint.
          and_then (bind_text (get_field "model" fs)) (λ model. ok (record {
            conversation_id = id;
            title = title;
            endpoint = endpoint;
            model = model;
            created_at = or_else (to_ms (get_field "createdAt" fs)) now;
            updated_at = or_else (to_ms (get_field "updatedAt" fs)) now;
            convo_json = env.stringify raw;
          }))))

    unfoldable pub imported_message : String → String → ℕ → Fields → Outcome StoredMessage
    unfolding get_field to_ms bind_text created_by_user message_text
    imported_message id convo now fs =
        and_then (bind_text (get_field "parentMessageId" fs)) (λ parent.
          and_then (bind_text (get_field "model" fs)) (λ model. ok (record {
            message_id = id;
            conversation_id = convo;
            parent_message_id = parent;
            is_created_by_user = created_by_user fs;
            text = message_text (get_field "text" fs) (get_field "content" fs);
            content_json = elim (get_field "content" fs) [
              | some j ↦ some (env.stringify j)
              | none ↦ none
            ];
            model = model;
            created_at = or_else (to_ms (get_field "createdAt" fs)) now;
            updated_at = or_else (to_ms (get_field "updatedAt" fs)) now;
          })))

    -- String(v ?? randomId())
    unfoldable pub id_or_random : Option Json → Action String
    unfolding string_of random_id
    id_or_random none = random_id env
    id_or_random (some j) = pure (string_of j)

    -- c.conversationId ?? c.id
    unfoldable pub convo_id_field : Fields → Option Json
    unfolding get_field
    convo_id_field fs = elim (get_field "conversationId" fs) [
      | some j ↦ some j
      | none ↦ get_field "id" fs
    ]

    unfoldable pub import_message : String → ℕ → Option Fields → Action (Unit {0})
    unfolding get_field id_or_random imported_message insert_message message_to_row run
        bound_statement
    import_message convo now none = fail type_error
    import_message convo now (some fs) = do
      id ← id_or_random (get_field "messageId" fs)
      run env (
          bound_statement (λ m. insert_message (message_to_row m))
            (imported_message id convo now fs))

    unfoldable pub import_messages : String → ℕ → Items → Action (Unit {0})
    unfolding import_message member_fields
    import_messages convo now nil = pure tt
    import_messages convo now (cons m ms) = do
      import_message convo now (member_fields m)
      import_messages convo now ms

    unfoldable pub import_convo : Json → Option Fields → Action (Unit {0})
    unfolding get_field id_or_random convo_id_field imported_convo import_messages insert_convo run
        bound_statement date_now
    import_convo raw none = pure tt
    import_convo raw (some fs) = do
      id ← id_or_random (convo_id_field fs)
      now ← date_now env
      run env (bound_statement insert_convo (imported_convo id now raw fs))
      import_messages id now (items_or_none (get_field "messages" fs))

    unfoldable pub import_convos : Items → Action (Unit {0})
    unfolding import_convo record_fields
    import_convos nil = pure tt
    import_convos (cons raw rest) = do import_convo raw (record_fields raw); import_convos rest

    -- Array.isArray(json) ? json : [json]
    abbrev pub convos_of : Json → Items
    convos_of (arr xs) = xs
    convos_of j = cons j nil

    unfoldable pub import_chat_export : Json → Action (Unit {0})
    unfolding import_convos tx
    import_chat_export json = tx env (import_convos (convos_of json))
