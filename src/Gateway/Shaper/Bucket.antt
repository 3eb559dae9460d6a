-- ===== src/Gateway/Shaper/Bucket.antt =====
-- gateway/ddos_shaper.go: what the bucket lets through.
use pmi.Base.{ℕ, ◌+◌, ◌-◌, ◌≤◌, ◌<◌, String, ◌≡◌, Bool, true, false, some, arith}
use pmi.Base.Http.{Request, next}
use pmi.Gateway.Shaper.{ClientBandwidth, TrafficShaper, refilled, check_bandwidth, middleware}

module _ (refill : ℕ → ℕ → ℕ) where
  -- A check that fails does not move the time of the last refill, so the next one, at the same
  -- time, is given the same refill again: it passes a transfer that one refill does not cover.
  failed_check_refills_again :
      (now : ℕ) (ip : String) (bytes : ℕ) (ts : TrafficShaper) (bw : ClientBandwidth)
      → ts.bandwidths ip ≡ some bw
      → let gain = refill bw.rate (now - bw.last_update) in
        bw.tokens + gain < bytes
        → bytes ≤ bw.burst
        → bytes ≤ bw.tokens + gain + gain
        → let (ts', passes) = check_bandwidth refill now ip bytes ts in
          (passes ≡ false) × ((check_bandwidth refill now ip bytes ts').1 ≡ true)
  unfolding check_bandwidth refilled
  failed_check_refills_again now ip bytes ts bw e a b c = ground arith

  -- The middleware, which checks for 0 bytes, stops no request.
  middleware_stops_nothing :
      (local : String → Bool) (now : ℕ) (r : Request) (ts : TrafficShaper)
      → (middleware refill local now r ts).1 ≡ next
  unfolding middleware check_bandwidth
  middleware_stops_nothing local now r ts = ground arith
