-- ===== src/Lib.antt =====
-- Caladon: a chat client that keeps its data on the device, encrypted, and talks to an attested
-- gateway through sealed envelopes. This library models the TypeScript of its web client.
--
-- The device store (web-client/overlay/client/src/lib/store). A page calls a StoreProxy (client.ts),
-- which posts a request (types.ts) to a web worker and settles the caller's promise when the response
-- comes; the worker (worker/store.worker.ts) runs SQL statements on the tables of schema.sql.ts.
--   Table                a SQL table as the list of its rows, and the statements over one
--   Store.Rows, Tables   StoredConversation, StoredMessage and the other records; the database and
--                        its constraints
--   Store.Action         run, query and tx: actions on a World that return or throw
--   Store.Turns          upsertConvo, upsertMessage, persistTurn, hydrateConvo, listConvos, deleteConvo
--   Store.Fork           forkConversation
--   Store.Vectors        vecToBlob, blobToVec, storeVectors, hydrateVectors
--   Store.Records        memories, agents, skills and clearAll
--   Store.Import         importChatExport
--   Store.Search         search and sanitizeFtsQuery
--   Store.Worker         the connection, init and the files of the device
--   Store.Worker.Handler handle and self.onmessage: the queue of requests and their responses
--   Store.Requests, Responses   the messages between the proxy and the worker
--   Store.Keeping        what no request can break, for each statement of the worker
--   Store.Consistency, History  the constraints of the schema under every operation
--   Proxy, Proxy.Methods StoreProxy: a step is one task of the event loop with its microtasks, and
--                        what it shows to the outside is appended to a log
--   Proxy.Channel        the proxy at one end of the worker's queue
--
-- The protocol package (web-client/caladon/src).
--   Sdk.Text             a JavaScript string as the list of its UTF-16 code units
--   Sdk.Bytes            bytes.ts
--   Sdk.Envelope         envelope.ts
--   Sdk.Quote            quote.ts
--   Sdk.Protocol         types.ts, constants.ts and the configuration of client.ts
--   Sdk.Session, Client, Chat   client.ts: CaladonClient as calls over its private fields that return
--                        or fail, with the requests that it sent in order
--   Sdk.Collateral, Collateral.Fetch   collateral.ts: the certificates in a quote, and the requests for
--                        the collateral
--
-- The stateless shim (web-client/shim/src), which serves the page and relays its requests.
--   Shim.Config          config.ts
--   Shim.Relay           proxy.ts
--   Shim.Server, Boot, Front   server.ts: the handlers, the static answers, the front door
--   Shim.Middleware      server.ts: the options of CORS and the session cookie
--   Shim.App             server.ts: the middleware and the order in which the handlers are tried
--
-- Prompt injection (web-client/overlay/client/src/lib).
--   Prompt.Inject        memory/inject.ts, skills/inject.ts and artifacts/inject.ts
--
-- Subagents (web-client/overlay/client/src/lib/subagents).
--   Agents.Collect       collect.ts
--
-- Retrieval (web-client/overlay/client/src/lib/rag).
--   Rag.Chunker          chunker.ts
--
-- Parameters. SQLite's faults, the clock, random ids and JSON are the answers of an environment Env
-- to the n-th question; the WASM core, the network, JSON and randomness are the fields of Platform.
-- SHA-256, UTF-8, btoa and atob are the record Crypto, the printing of numbers the record Host. The
-- worker adds Engine (the files of the device, opening, keys and pragmas), Dynamic (JSON values of an
-- import) and Fts (the matches of a query); the shim Network, Script (the clock, JSON, URLs), Hono
-- (CORS, cookies, random bytes) and the environment of its process; the collateral Pcs (the network,
-- atob, decodeURIComponent, UTF-8, JSON). Sdk.Client takes the collateral of a quote as an answer of
-- Platform. Page is localStorage, the code units of a text and whether the store is open.
--
-- Fuel. The loop of chunkText that cuts a text has as much fuel as the text has characters, and each
-- round shortens the text by at least one character. The slices of a word have as much fuel as the
-- word has characters. The walk to the root of a conversation in a fork has fuel for one round
-- more than there are messages, and visits a message once. The certificates of a text have as much
-- fuel as the text has characters, and each of them takes some. The bytes of an identifier's part have
-- as much fuel as its value, which each round divides by 128.
--
-- Numbers are natural numbers. Timestamps are never negative. A Float32 is its four bytes.
--
-- Not modelled: the singleton of client.ts; passkey.ts, wasm.ts and the generated caladon_core.js; the
-- start of the shim's server, and Hono's answers to HEAD and OPTIONS; the parsers, the vector index and
-- the embedder, which work on floating point numbers and third-party libraries; orchestrate.ts and
-- kdf.ts; the user interface and the edited files of LibreChat; the Rust core, the gateway, the
-- infrastructure and the Apple client.
pub mod Prelude
pub mod Table
pub mod Store
pub mod Proxy
pub mod Sdk
pub mod Shim
pub mod Agents
pub mod Prompt
pub mod Rag
pub mod Tests
