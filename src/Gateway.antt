-- ===== src/Gateway.antt =====
-- gateway/: the proxy gateway's components.
pub mod RateLimit
pub mod Tiers
pub mod RequestDedup
pub mod DedupTiers
pub mod KeyExpiry
pub mod Quota
pub mod Shaper
pub mod Ddos
pub mod ConnPool
pub mod Hub
pub mod ClientLimits
pub mod Cache
pub mod Activity
pub mod Webhook
pub mod Selector
pub mod RequestIds
pub mod ApiKeys
pub mod Broadcast
pub mod Proxy
pub mod Auth
pub mod AdminSessions
pub mod Batch
pub mod NodeScore
pub mod GeoIp
pub mod Heartbeats
pub mod Retry
pub mod Distributed
pub mod Scaling
