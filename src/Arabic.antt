-- ===== src/Arabic.antt =====
-- src/moc/arabic: digits, quantities and scripts of a text.
pub mod Numerals
pub mod Normalize
pub mod Script
