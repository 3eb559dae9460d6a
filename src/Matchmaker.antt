-- ===== src/Matchmaker.antt =====
-- matchmaker/: which node serves a request.
pub mod Capacity
pub mod Registry
pub mod Breaker
pub mod Selection
pub mod Sessions
pub mod Groups
pub mod Latency
pub mod RequestQueue
pub mod HealthHistory
pub mod PeerHealth
