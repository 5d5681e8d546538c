-- ===== src/Agent.antt =====
-- src/moc/agent: one customer turn.
pub mod State
pub mod Engine
pub mod Guards
pub mod Conversations
pub mod Handoff
pub mod Messages
pub mod Redaction
pub mod Provenance
pub mod FigureAudit
pub mod Replies
pub mod Orchestrator
