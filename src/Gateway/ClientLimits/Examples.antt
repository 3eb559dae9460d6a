-- ===== src/Gateway/ClientLimits/Examples.antt =====
-- gateway/client_ratelimit.go: runs.
use pmi.Base.{true, false, [], empty}
use pmi.Base.Http.{Request}
use pmi.Gateway.RateLimit
use pmi.Gateway.RateLimit.{LocalRateLimiter, new_local_rate_limiter}
use pmi.Gateway.ClientLimits.{ClientRateLimiter}

abbrev by_client : ClientRateLimiter
by_client = record {
  redis = record { connected = false; sent = [] };
  default_limit = 2;
  window_seconds = 60;
  local_cache = empty;
}

abbrev plain : LocalRateLimiter
plain = new_local_rate_limiter 2 60

abbrev with_redis : ClientRateLimiter
with_redis = record by_client { redis = record { connected = true; sent = [] } }

abbrev request : Request
request = record { client_ip = "a"; authorization = ""; proxy_authorization = "" }
