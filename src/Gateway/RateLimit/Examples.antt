-- ===== src/Gateway/RateLimit/Examples.antt =====
-- gateway/ratelimit.go: runs of the limiter.
use pmi.Base.{◌≡◌, refl, true}
use pmi.Gateway.RateLimit.{LocalRateLimiter, new_local_rate_limiter, allow}

abbrev two_a_minute : LocalRateLimiter
two_a_minute = new_local_rate_limiter 2 60

-- A limit of 0 lets the first request of a window through.
zero_lets_one_pass : (allow 5 "a" (new_local_rate_limiter 0 60)).1 ≡ true
unfolding allow new_local_rate_limiter
zero_lets_one_pass = refl
