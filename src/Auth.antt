-- ===== src/Auth.antt =====
-- Sign-in: services/api/src/nebula_api/auth.
pub mod Redis
pub mod RateLimit
pub mod Lockout
pub mod OpaqueTokens
pub mod Users
pub mod Challenges
pub mod Sessions
mod Tests
mod UserTests
