-- ===== src/Server.antt =====
-- src/chute/server.py: the relay's own decisions. `State` is the part of `Server` that they read
-- and write.
pub mod State
pub mod Accounts
pub mod VisitorIps
pub mod RateLimits
pub mod Registry
pub mod Revoke
pub mod Claims
pub mod Policy
pub mod Head
pub mod Host
pub mod EventQueue
