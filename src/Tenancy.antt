-- ===== src/Tenancy.antt =====
-- src/moc/tenancy: what a tenant may set and what a call costs.
pub mod Settings
pub mod Pricing
