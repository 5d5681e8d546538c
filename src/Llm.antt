-- ===== src/Llm.antt =====
-- src/moc/llm: the port to the language-model providers, and the router over it.
pub mod Base
pub mod Router
pub mod Http
