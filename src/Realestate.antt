-- ===== src/Realestate.antt =====
-- src/moc/verticals/realestate: the broker's vertical.
pub mod Calculator
pub mod Leads
