-- ===== src/Sdk/Chat/Laws.antt =====
-- web-client/caladon/src/client.ts, chat: its test for a leak, and the reply.
use caladon.Sdk.Client.Laws.{bind-done}
use caladon.Sdk.Text.{Text, includes, starts_with}
use caladon.Sdk.Protocol.{ClientSettings}
use caladon.Sdk.Session.{Client, Platform, done}
use caladon.Sdk.Chat.{ChatResult, chat, read_stream}
use caladon.Prelude.{ℕ, ◌≡◌, ◌≢◌, refl, true, Option, List, [], ◌∷◌, arith}

includes-empty : (t : Text) → includes [] t ≡ true
unfolding includes starts_with
includes-empty [] = refl
includes-empty (c ∷ t) = refl

module _ (p : Platform) (cfg : ClientSettings) where
  read_stream-leak :
      (prompt : Text) (sk : List ℕ) (account_id sse_text : Text) (r : ChatResult) (c c' : Client)
      → includes prompt sse_text ≡ true
      → read_stream p cfg prompt sk account_id sse_text c ≢ (done r, c')
  unfolding read_stream
  read_stream-leak prompt sk account_id sse_text r c c' found h = ground arith

  -- A chat turn with an empty prompt never returns a result, whatever the gateway answers: the
  -- empty text is part of every stream, so where nothing failed before, the leak test throws.
  pub chat-empty :
      (model : Option Text) (r : ChatResult) (c c' : Client) → chat p cfg [] model c ≢ (done r, c')
  unfolding chat
  chat-empty model r c c' h0 =
      let (ident, c1, e1, h1) = bind-done _ _ c c' r h0 in
      let (sk, c2, e2, h2) = bind-done _ _ c1 c' r h1 in
      let (sealed, c3, e3, h3) = bind-done _ _ c2 c' r h2 in
      let (envelope, c4, e4, h4) = bind-done _ _ c3 c' r h3 in
      let (reply, c5, e5, h5) = bind-done _ _ c4 c' r h4 in
      let (sse_text, c6, e6, h6) = bind-done _ _ c5 c' r h5 in
      read_stream-leak [] sk ident.account_id sse_text r c6 c' (includes-empty sse_text) h6
