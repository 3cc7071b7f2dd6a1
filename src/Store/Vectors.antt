-- ===== src/Store/Vectors.antt =====
-- store.worker.ts, per-message vectors: vecToBlob, blobToVec, storeVectors and hydrateVectors.
pub mod RoundTrip
use caladon.Prelude.{ℕ, suc, String, ◌==◌, Bool, List, [], ◌∷◌, ◌++◌, map, leb, if◌then◌else◌}
use caladon.Table.{delete_where, order_by}
use caladon.Store.Rows.{Float32, VectorChunk, StoredVector, EmbeddingRow}
use caladon.Store.Tables.{Tables, has_embedding}
use caladon.Store.Action.{
  Env, Outcome, ok, throw, unique, Action, pure, ◌>>=◌, ◌>>◌, run, query, tx,
}

-- The bytes of the Float32Array, copied.
unfoldable pub vec_to_blob : List Float32 → List ℕ
vec_to_blob [] = []
vec_to_blob (f ∷ fs) = f.b0 ∷ f.b1 ∷ f.b2 ∷ f.b3 ∷ vec_to_blob fs

-- Math.floor(byteLength / 4) floats: up to three bytes at the end are dropped.
unfoldable pub blob_to_vec : List ℕ → List Float32
blob_to_vec (a ∷ b ∷ c ∷ d ∷ rest) = record { b0 = a; b1 = b; b2 = c; b3 = d } ∷ blob_to_vec rest
blob_to_vec _ = []

unfoldable pub delete_vectors : String → Tables → Outcome Tables
delete_vectors owner t = ok (record t {
  message_embeddings = delete_where (λ r. r.message_id == owner) t.message_embeddings;
})

-- A plain INSERT: a second row with the primary key is refused.
unfoldable pub insert_vector : EmbeddingRow → Tables → Outcome Tables
insert_vector r t =
    if has_embedding r.message_id r.ord t.message_embeddings
    then throw unique
    else ok (record t { message_embeddings = t.message_embeddings ++ r ∷ [] })

unfoldable pub chunk_row : String → ℕ → VectorChunk → EmbeddingRow
unfolding vec_to_blob
chunk_row owner ord chunk = record {
  message_id = owner;
  ord = ord;
  text = chunk.text;
  vec = vec_to_blob chunk.vec;
}

unfoldable pub row_to_vector : EmbeddingRow → StoredVector
unfolding blob_to_vec
row_to_vector r = record {
  message_id = r.message_id;
  ord = r.ord;
  text = r.text;
  vec = blob_to_vec r.vec;
}

-- ORDER BY messageId, ord
abbrev pub by_owner_ord : (String → String → Bool) → EmbeddingRow → EmbeddingRow → Bool
by_owner_ord text_le a b =
    if a.message_id == b.message_id then leb a.ord b.ord else text_le a.message_id b.message_id

module _ (env : Env) where
  -- chunks.forEach((chunk, ord) => run('INSERT …'))
  unfoldable pub insert_chunks : String → ℕ → List VectorChunk → Action (Unit {0})
  unfolding run insert_vector chunk_row
  insert_chunks owner ord [] = pure tt
  insert_chunks owner ord (c ∷ cs) = do
    run env (insert_vector (chunk_row owner ord c))
    insert_chunks owner (suc ord) cs

  unfoldable pub store_vectors : String → List VectorChunk → Action (Unit {0})
  unfolding run tx delete_vectors insert_chunks
  store_vectors owner chunks =
      tx env (do run env (delete_vectors owner); insert_chunks owner 0 chunks)

  unfoldable pub hydrate_vectors : Action (List StoredVector)
  unfolding query row_to_vector
  hydrate_vectors = do
    rows ← query env (λ t. order_by (by_owner_ord env.text_le) t.message_embeddings)
    pure (map row_to_vector rows)
