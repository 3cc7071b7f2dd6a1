-- ===== src/Store/Vectors/RoundTrip.antt =====
-- store.worker.ts: a vector and its BLOB, and what storeVectors leaves in the table.
use caladon.Table.Laws.{select-append, select-delete_where}
use caladon.Store.Tables.{has_embedding, Tables}
use caladon.Store.Vectors.{
  blob_to_vec, chunk_row, insert_chunks, row_to_vector, vec_to_blob, store_vectors,
}
use caladon.Store.Action.Laws.{Quiet}
use caladon.Prelude.{
  List, String, [], ap, append-nil, arith, eqb, false, map, refl, suc, ℕ, ◌++◌, ◌==◌, ◌∷◌, ◌≡◌, ◌≤◌,
  append_assoc, eq_iff, eq_refl, ◌∙◌, ◌≢◌,
}
use caladon.Store.Action.{Env, World, next, ok}
use caladon.Store.Rows.{EmbeddingRow, Float32, StoredVector, VectorChunk}
use caladon.Table.{delete_where, select}

-- A vector is read back from its BLOB bit for bit.
pub blob_to_vec-vec_to_blob : (v : List Float32) → blob_to_vec (vec_to_blob v) ≡ v
unfolding blob_to_vec vec_to_blob
blob_to_vec-vec_to_blob [] = refl
blob_to_vec-vec_to_blob (f ∷ fs) = ap (◌∷◌ f) (blob_to_vec-vec_to_blob fs)

-- The rows of the chunks, with the ordinals from `ord` on.
unfoldable pub chunk_rows : String → ℕ → List VectorChunk → List EmbeddingRow
chunk_rows owner ord [] = []
chunk_rows owner ord (c ∷ cs) = chunk_row owner ord c ∷ chunk_rows owner (suc ord) cs

-- What a reader gets of the chunks of an owner.
unfoldable pub stored_vectors : String → ℕ → List VectorChunk → List StoredVector
stored_vectors owner ord [] = []
stored_vectors owner ord (c ∷ cs) =
    record { message_id = owner; ord = ord; text = c.text; vec = c.vec }
    ∷ stored_vectors owner (suc ord) cs

row_to_vector-chunk_rows :
    (owner : String) (ord : ℕ) (cs : List VectorChunk)
    → map row_to_vector (chunk_rows owner ord cs) ≡ stored_vectors owner ord cs
unfolding chunk_rows stored_vectors row_to_vector chunk_row
row_to_vector-chunk_rows owner ord [] = refl
row_to_vector-chunk_rows owner ord (c ∷ cs) =
    rw (blob_to_vec-vec_to_blob c.vec, row_to_vector-chunk_rows owner (suc ord) cs)

-- No ordinal from `ord` on is taken.
abbrev Free : String → ℕ → List EmbeddingRow → Type 0
Free owner ord rs = (n : ℕ) → ord ≤ n → has_embedding owner n rs ≡ false

has_embedding-snoc :
    (owner : String) (n : ℕ) (rs : List EmbeddingRow) (r : EmbeddingRow)
    → has_embedding owner n rs ≡ false
    → (eqb r.ord n ≡ false)
    → has_embedding owner n (rs ++ r ∷ []) ≡ false
unfolding has_embedding
has_embedding-snoc owner n [] r h k = ground arith
has_embedding-snoc owner n (x ∷ rs) r h k = ground (arith, has_embedding-snoc owner n rs r)

Free-delete :
    (owner : String) (ord : ℕ) (rs : List EmbeddingRow)
    → Free owner ord (delete_where (λ r. r.message_id == owner) rs)
unfolding has_embedding delete_where
Free-delete owner ord [] n h = refl
Free-delete owner ord (r ∷ rs) n h = ground (arith, Free-delete owner ord rs n)

module _ (env : Env) (quiet : Quiet env) where
  insert_chunks_lem :
      (owner : String) (ord : ℕ) (cs : List VectorChunk) (w : World)
      → Free owner ord w.tables.message_embeddings
      → ((insert_chunks env owner ord cs w).0 ≡ ok tt)
        × ((insert_chunks env owner ord cs w).1.tables ≡ record w.tables {
          message_embeddings = w.tables.message_embeddings ++ chunk_rows owner ord cs;
        })
  unfolding insert_chunks chunk_rows
  insert_chunks_lem owner ord [] w free = (refl, rw append-nil)
  insert_chunks_lem owner ord (c ∷ cs) w free =
      let here : has_embedding owner ord w.tables.message_embeddings ≡ false =
        free ord (omega arith) in
      let rest =
        insert_chunks_lem owner (suc ord) cs
          (record (next w) {
            tables = record w.tables {
              message_embeddings = w.tables.message_embeddings ++ chunk_row owner ord c ∷ [];
            };
          })
          (λ n h.
            has_embedding-snoc owner n w.tables.message_embeddings (chunk_row owner ord c)
              (free n (omega arith)) (ground arith)) in
      (
        simp (quiet, here) rest.0,
        simp (quiet, here)
            (rest.1
              ∙ ap (λ (l : List EmbeddingRow). record w.tables { message_embeddings = l })
                  (append_assoc w.tables.message_embeddings (chunk_row owner ord c ∷ [])
                    (chunk_rows owner (suc ord) cs))),
      )

  store_vectors_lem :
      (owner : String) (cs : List VectorChunk) (w : World)
      → ((store_vectors env owner cs w).0 ≡ ok tt)
        × ((store_vectors env owner cs w).1.tables ≡ record w.tables {
          message_embeddings =
              delete_where (λ r. r.message_id == owner) w.tables.message_embeddings
              ++ chunk_rows owner 0 cs;
        })
  unfolding store_vectors
  store_vectors_lem owner cs w =
      let rest =
        insert_chunks_lem owner 0 cs
          (record (next (next w)) {
            tables = record w.tables {
              message_embeddings =
                  delete_where (λ r. r.message_id == owner) w.tables.message_embeddings;
            };
          })
          (λ n h. Free-delete owner 0 w.tables.message_embeddings n h) in
      (simp (quiet, rest.0), simp (quiet, rest.0) rest.1)

-- the rows of an owner, as a reader gets them
abbrev pub vectors_of : String → Tables → List StoredVector
vectors_of owner t = map row_to_vector (select (λ r. r.message_id == owner) t.message_embeddings)

select-chunk_rows :
    (owner : String) (ord : ℕ) (cs : List VectorChunk)
    → select (λ r. r.message_id == owner) (chunk_rows owner ord cs) ≡ chunk_rows owner ord cs
unfolding select chunk_rows chunk_row
select-chunk_rows owner ord [] = refl
select-chunk_rows owner ord (c ∷ cs) = rw (eq_refl owner, select-chunk_rows owner (suc ord) cs)

select-chunk_rows_other :
    (owner j : String) (ord : ℕ) (cs : List VectorChunk)
    → owner ≢ j
    → select (λ r. r.message_id == j) (chunk_rows owner ord cs) ≡ []
unfolding select chunk_rows chunk_row
select-chunk_rows_other owner j ord [] h = refl
select-chunk_rows_other owner j ord (c ∷ cs) h =
    ground (arith, eq_iff owner j, select-chunk_rows_other owner j (suc ord) cs h)

select-delete_where_other :
    (owner j : String) (rs : List EmbeddingRow)
    → owner ≢ j
    → select (λ r. r.message_id == j) (delete_where (λ r. r.message_id == owner) rs)
      ≡ select (λ r. r.message_id == j) rs
unfolding select delete_where
select-delete_where_other owner j [] h = refl
select-delete_where_other owner j (r ∷ rs) h = ground (
  arith,
  eq_iff r.message_id j,
  eq_iff r.message_id owner,
  select-delete_where_other owner j rs h,
)

-- storeVectors replaces the vectors of its owner: where no statement fails it returns, afterwards the
-- rows of the owner read as the chunks given, in their order with ordinals from 0 and each vector bit
-- for bit, whatever was stored for the owner before, and the rows of every other owner are unchanged.
pub vectors_of-store_vectors :
    (env : Env) (owner j : String) (cs : List VectorChunk) (w : World)
    → Quiet env
    → owner ≢ j
    → ((store_vectors env owner cs w).0 ≡ ok tt)
      × (vectors_of owner (store_vectors env owner cs w).1.tables ≡ stored_vectors owner 0 cs)
      × (vectors_of j (store_vectors env owner cs w).1.tables ≡ vectors_of j w.tables)
vectors_of-store_vectors env owner j cs w quiet h =
    let (returned, after) = store_vectors_lem env quiet owner cs w in
    let kept =
      delete_where (λ (r : EmbeddingRow). r.message_id == owner) w.tables.message_embeddings in
    (
      returned,
      rw
          (
            after,
            select-append (λ r. r.message_id == owner) kept (chunk_rows owner 0 cs),
            select-delete_where (λ r. r.message_id == owner) w.tables.message_embeddings,
            select-chunk_rows owner 0 cs,
          )
          (row_to_vector-chunk_rows owner 0 cs),
      rw (
        after,
        select-append (λ r. r.message_id == j) kept (chunk_rows owner 0 cs),
        select-delete_where_other owner j w.tables.message_embeddings h,
        select-chunk_rows_other owner j 0 cs h,
        append-nil,
      ),
    )
