-- ===== src/Agent.antt =====
-- The agent on a VPN server: services/vpn-agent/src/nebula_agent.
pub mod Ledger
pub mod Dispatch
pub mod WireGuard
pub mod Tests
mod DispatchTests
mod WireGuardTests
