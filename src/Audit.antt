-- ===== src/Audit.antt =====
-- The audit trail: services/api/src/nebula_api/audit.
pub mod Chain
mod Tests
