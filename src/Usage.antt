-- ===== src/Usage.antt =====
-- Traffic accounting and quotas: services/api/src/nebula_api/usage.
pub mod Ledger
pub mod Counters
pub mod Account
pub mod Activity
pub mod Quota
pub mod Enforcement
mod Tests
mod QuotaTests
