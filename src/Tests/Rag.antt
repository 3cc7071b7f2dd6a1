-- ===== src/Tests/Rag.antt =====
-- The chunker on a short text.
use caladon.Sdk.Text.{codes}
use caladon.Rag.Chunker.Bounds.{InBudget, chunk_text-InBudget}
use caladon.Rag.Chunker.{ChunkOptions, chunk_text, max_chars_of}
use caladon.Prelude.{All, none, some}

abbrev small_chunks : ChunkOptions
small_chunks = record { chunk_tokens = some 1; overlap_tokens = none }

chunk_text-InBudget_example :
    All
      (InBudget (max_chars_of small_chunks))
      (chunk_text (codes "A sentence of more than sixteen characters.") small_chunks)
chunk_text-InBudget_example =
    chunk_text-InBudget (codes "A sentence of more than sixteen characters.") small_chunks
