-- ===== src/Workers.antt =====
-- src/moc/workers/: the consumers of the two work streams.
pub mod Streams
pub mod Outbound
pub mod Inbound
