-- ===== src/Gateway/RateLimit/Cleanup.antt =====
-- gateway/ratelimit.go: what `cleanup` removes no later request sees.
use pmi.Base.{ℕ, ◌≤◌, String, ◌≡◌, arith}
use pmi.Gateway.RateLimit.{LocalRateLimiter, allow, cleanup}

-- A round of `cleanup` before a request, at a time not after it, changes neither the answer nor
-- any entry of the client that is asked for.
allow-cleanup :
    (t now : ℕ) (id : String) (rl : LocalRateLimiter)
    → t ≤ now
    → ((allow now id (cleanup t rl)).1 ≡ (allow now id rl).1)
      × ((allow now id (cleanup t rl)).0.requests id ≡ (allow now id rl).0.requests id)
unfolding allow cleanup
allow-cleanup t now id rl h = ground arith
