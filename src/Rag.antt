-- ===== src/Rag.antt =====
-- src/athenai/rag: parsing, chunking and reranking of documents.
mod Tests
pub mod Parser
pub mod Chunker
pub mod Reranker
pub mod Embedder
pub mod Retriever
pub mod Loader
