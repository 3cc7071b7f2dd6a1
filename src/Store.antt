-- ===== src/Store.antt =====
-- The device store of web-client/overlay/client/src/lib/store: the rows of types.ts, the tables of
-- schema.sql.ts and the operations of worker/store.worker.ts.
pub mod Rows
pub mod Tables
pub mod Action
pub mod Turns
pub mod Fork
pub mod Vectors
pub mod Records
pub mod Import
pub mod Search
pub mod Keeping
pub mod Worker
pub mod Requests
pub mod Responses
pub mod Consistency
pub mod History
