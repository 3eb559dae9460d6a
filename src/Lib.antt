-- ===== src/Lib.antt =====
-- ProxyMesh: a mesh of residential proxy nodes. A client's request reaches the gateway
-- (gateway/), passes its middlewares (rate limits, quotas, shaping, protection against floods,
-- deduplication), and asks the matchmaker (matchmaker/) for a node; the gateway keeps connections
-- to nodes in a pool and pushes updates to the administrators' browsers through a hub. Beside
-- them stand the subnet allocator and the migrations (internal/), the administrators' accounts
-- (admin/rbac/), the tokens (jwt/), the payouts (payout/) and the federation of regions
-- (federation/). A peer runs the library of peer-sdk/, which connects it to the gateway.
--
-- Base: lists, Boolean tests and maps (Base/Lists, Base/Tests, Base/Maps), HTTP requests and
-- replies (Base/Http), results (Base/Result), and the commands sent to Redis without reading
-- their answer (Base/Redis), the sorting loops that several files repeat (Base/Sort), the bounded
-- slices that drop their oldest element (Base/Window), and the operations on floats (Base/Floats),
-- of which no theorem but those that name it assumes an order. A Go map keyed by strings is the
-- function that a read computes.
--
-- Gateway/RateLimit: gateway/ratelimit.go. Gateway/Tiers: gateway/rate_limit_tiers.go, over the
-- interface RateLimiter, which LocalRateLimiter fills. Gateway/ClientLimits:
-- gateway/client_ratelimit.go. Gateway/RequestDedup: gateway/request_dedup.go. Gateway/DedupTiers:
-- gateway/dedup_tiers.go. Gateway/KeyExpiry and Gateway/Quota: gateway/keyquota.go. Gateway/Shaper
-- and Gateway/Ddos: gateway/ddos_shaper.go. Gateway/ConnPool: gateway/connpool.go, with the
-- interleavings of calls in Gateway/ConnPool/Interleaved. Gateway/Hub: gateway/websocket.go.
-- Gateway/Cache: gateway/cache.go. Gateway/Proxy: the proxy handler of gateway/service.go, which
-- calls the matchmaker's selection and breakers. Gateway/Auth: the authentication before that
-- handler, which asks Gateway/ApiKeys about a key. Gateway/ApiKeys: gateway/apikey.go, over an
-- interface of Redis hashes. Gateway/Selector: the NodeSelector of gateway/validation.go.
-- Gateway/Webhook and Gateway/Activity: gateway/timeout_webhook.go. Gateway/RequestIds:
-- gateway/requestid.go. Gateway/Broadcast: gateway/broadcast.go. Gateway/AdminSessions: the
-- sessions of gateway/schema_session.go. Gateway/Heartbeats: the connections and the rules of
-- gateway/validation.go. Gateway/Batch and Gateway/NodeScore: gateway/batch.go.
-- Gateway/Distributed: gateway/redis_ratelimit.go, over sorted sets in Redis. Gateway/Retry:
-- gateway/retry.go. Gateway/GeoIp: gateway/geoip.go, with its table in Gateway/GeoIp/Table.
-- Gateway/Scaling: gateway/scaling_policy.go, which reads the report of Matchmaker/Capacity.
-- Matchmaker/Breaker and Matchmaker/Selection: matchmaker/service.go. Matchmaker/Sessions:
-- matchmaker/session_persist.go. Matchmaker/Groups: matchmaker/node_groups.go. Matchmaker/Latency
-- and Matchmaker/RequestQueue: matchmaker/latency.go. Matchmaker/HealthHistory:
-- matchmaker/health_history.go. Matchmaker/PeerHealth: matchmaker/peer_health.go.
-- Matchmaker/Capacity: matchmaker/capacity.go. Matchmaker/Registry: the registration of nodes in
-- matchmaker/service.go and matchmaker/redis_client.go, over an interface of Redis.
-- Subnet: internal/subnet/allocator.go, over an interface of Redis hashes. Migrations:
-- internal/migrations/migrator.go. Rbac: admin/rbac/service.go. Federation: federation/service.go.
-- Health: health/service.go. Jwt: jwt/service.go and jwt/middleware.go, over an interface of the
-- library for tokens. Payout: payout/service.go. PeerSdk: peer-sdk/sdk.go, with PeerSdk/Client for
-- peer-sdk/grpc_client.go and PeerSdk/Consent for the consent of the user.
-- The definitions have the names of the Go functions, in small letters with underscores; a cleanup
-- is one round of the loop that the code starts in the background.
--
-- A time is a number of nanoseconds, where a file does not say otherwise, and each reading of the
-- clock an argument; counts and sizes are natural numbers, far below the bounds of Go's int, save
-- in Gateway/Retry, where the product of delays wraps at 64 bits; no limit or quota is negative.
-- No loop needs fuel: each goes over a list, or down from a number. Randomness, floats, hashes,
-- the calendar, the parsing of addresses and the answers of Redis are parameters or arguments. A
-- panic or a fatal error is none. A record passed through a function stands for a struct behind a
-- mutex; where the code leaves the mutex in between, the steps are taken apart
-- (Gateway/ConnPool/Interleaved, the check in memory of Gateway/ClientLimits), and where it
-- counts, the lock is part of the state (Matchmaker/Sessions). Which commands of Redis fail is an
-- argument `fails` or an answer, and a command that fails is taken to change nothing; an error's
-- text is kept only where it tells errors apart. The handlers of a batch change a world that is
-- passed from one to the next (Gateway/Batch).
--
-- Not modelled: HTTP handlers and wiring (main.go, admin.go, peer_api.go, most of
-- gateway/service.go), which bind JSON and pass it on; the benchmarks, the remaining middlewares of
-- the gateway (replay, size limits, schemas, slow clients, analytics), the client of sdk/go, the
-- command line, and generated gRPC code.
pub mod Base
pub mod Gateway
pub mod Matchmaker
pub mod Subnet
pub mod Migrations
pub mod Rbac
pub mod Federation
pub mod PeerSdk
pub mod Jwt
pub mod Health
pub mod Payout
