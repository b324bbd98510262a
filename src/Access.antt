-- ===== src/Access.antt =====
-- Taking credentials away: services/api/src/nebula_api/provisioning/revocation.py and
-- services/api/src/nebula_api/access/expiry.py.
pub mod Revocation
pub mod Expiry
pub mod Tests
mod ExpiryTests
