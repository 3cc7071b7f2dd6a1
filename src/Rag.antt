-- ===== src/Rag.antt =====
-- The retrieval helpers in web-client/overlay/client/src/lib/rag.
pub mod Chunker
