-- ===== src/Retrieval.antt =====
-- src/moc/retrieval/: how a document becomes the passages that retrieval can return.
pub mod Chunker
pub mod Fusion
