-- ===== src/Sdk/Chat.antt =====
-- web-client/caladon/src/client.ts: a chat turn, and the deltas of its event stream.
pub mod Laws
use caladon.Sdk.Envelope.{from_wire_envelope, to_wire_envelope}
use caladon.Sdk.Text.{Text, codes, includes, starts_with, trim}
use caladon.Sdk.Protocol.{
  ChatDelta, ClientSettings, DeltaEvent, chat_purpose, envelope_v, reasoning, token,
}
use caladon.Sdk.Session.{
  ◌>>=◌, Call, Platform, chat_body, envelope_too_short, fail, give, given, leak, no_session_key,
  platform_threw, post,
}
use caladon.Sdk.Client.{
  handshake, HandshakeResult, ok_text, require_identity, same_text, signed_fetch, truthy,
}
use caladon.Prelude.{
  ℕ, Bool, true, false, ◌&&◌, Option, List, [], ◌∷◌, ◌++◌, eqb, if◌then◌else◌, drop, length,
}

-- The value of `lastEvent`: only two of its texts matter.
pub data LastEvent : Type 0 where
  other : LastEvent
  known : DeltaEvent → LastEvent

unfoldable pub event_of : Text → LastEvent
unfolding same_text
event_of t =
    if same_text t (codes "token")
    then known token
    else if same_text t (codes "reasoning")
    then known reasoning
    else other

-- text.split(/\r?\n/): the lines after a character and the lines of the rest.
abbrev pub join_line : ℕ → List Text → List Text
join_line c [] = (c ∷ []) ∷ []
join_line c (l ∷ ls) = (c ∷ l) ∷ ls

abbrev pub starts_line_feed : Text → Bool
starts_line_feed [] = false
starts_line_feed (c ∷ t) = eqb c 10

unfoldable pub split_lines : Text → List Text
split_lines [] = [] ∷ []
split_lines (c ∷ t) =
    let rest = split_lines t in
    if eqb c 10
    then [] ∷ rest
    else if eqb c 13 && starts_line_feed t
    then rest
    else join_line c rest

pub data Line : Type 0 where
  event_line data_line : Text → Line
  other_line : Line

-- What the loop makes of a line: the text after the prefix, trimmed.
unfoldable pub line_of : Text → Line
unfolding starts_with trim
line_of l =
    if starts_with (codes "event:") l
    then event_line (trim (drop 6 l))
    else if starts_with (codes "data:") l
    then data_line (trim (drop 5 l))
    else other_line

pub record ChatResult : Type 0 where
  pub reply : Text
  pub reasoning_text : Text
  pub deltas : List ChatDelta
  pub raw_bytes : ℕ

abbrev pub same_event : DeltaEvent → DeltaEvent → Bool
same_event token token = true
same_event token reasoning = false
same_event reasoning token = false
same_event reasoning reasoning = true

-- deltas.filter((d) => d.event === e).map((d) => d.text).join('')
unfoldable pub texts_of : DeltaEvent → List ChatDelta → Text
texts_of e [] = []
texts_of e (d ∷ ds) =
    let rest = texts_of e ds in if same_event d.event e then d.text ++ rest else rest

module _ (p : Platform) (cfg : ClientSettings) where
  unfoldable pub open_delta : List ℕ → Text → DeltaEvent → Text → Call ChatDelta
  open_delta sk account_id event json = given platform_threw (p.parse_delta json) >>= λ envelope.
      given platform_threw (from_wire_envelope p.crypto envelope) >>= λ nonce_ct.
      given platform_threw (p.open_chat sk nonce_ct account_id envelope.v) >>= λ pt.
      give (record { event = event; text = p.from_utf8 pt })

  -- What a line does before `rest` reads the lines after it.
  unfoldable pub open_line :
      List ℕ → Text → LastEvent → Line → (LastEvent → Call (List ChatDelta)) → Call (List ChatDelta)
  open_line sk account_id last (event_line t) rest = rest (event_of t)
  open_line sk account_id (known e) (data_line json) rest =
      open_delta sk account_id e json >>= λ d. rest (known e) >>= λ ds. give (d ∷ ds)
  open_line sk account_id other (data_line json) rest = rest other
  open_line sk account_id last other_line rest = rest last

  -- The loop of openDeltas from a line on, after `lastEvent`.
  unfoldable pub open_lines : List ℕ → Text → LastEvent → List Text → Call (List ChatDelta)
  unfolding open_line
  open_lines sk account_id last [] = give []
  open_lines sk account_id last (l ∷ ls) =
      open_line sk account_id last (line_of l) (λ e. open_lines sk account_id e ls)

  unfoldable pub open_deltas : Text → List ℕ → Text → Call (List ChatDelta)
  unfolding open_lines
  open_deltas sse_text sk account_id = open_lines sk account_id other (split_lines sse_text)

  -- The leak test, and the result where it passes.
  unfoldable pub read_stream : Text → List ℕ → Text → Text → Call ChatResult
  unfolding open_deltas
  read_stream prompt sk account_id sse_text =
      if includes prompt sse_text
      then fail leak
      else (open_deltas sse_text sk account_id >>= λ ds. give (record {
        reply = texts_of token ds;
        reasoning_text = texts_of reasoning ds;
        deltas = ds;
        raw_bytes = length (p.crypto.utf8 sse_text);
      }))

  unfoldable pub require_session_key : Call (List ℕ)
  require_session_key c = given no_session_key c.session_key c

  unfoldable pub chat : Text → Option Text → Call ChatResult
  unfolding require_identity require_session_key signed_fetch ok_text read_stream
  chat prompt model = require_identity p cfg >>= λ ident. require_session_key >>= λ sk.
      given platform_threw (p.seal_chat sk (p.crypto.utf8 prompt) ident.account_id envelope_v)
      >>= λ sealed.
          given envelope_too_short
            (to_wire_envelope p.crypto sealed ident.account_id chat_purpose envelope_v chat_purpose)
          >>= λ envelope.
              signed_fetch p cfg post (codes "chat") []
                (chat_body (record { envelope = envelope; model = truthy model })) true
              >>= λ r. ok_text r >>= λ sse_text. read_stream prompt sk ident.account_id sse_text

  unfoldable pub roundtrip : List ℕ → Text → Option Text → Call (HandshakeResult × ChatResult)
  unfolding handshake chat
  roundtrip seed prompt model =
      handshake p cfg seed >>= λ shaken. chat prompt model >>= λ said. give (shaken, said)
