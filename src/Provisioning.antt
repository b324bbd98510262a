-- ===== src/Provisioning.antt =====
-- Provisioning: services/api/src/nebula_api/provisioning.
pub mod Allocator
mod Tests
