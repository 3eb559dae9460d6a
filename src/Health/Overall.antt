-- ===== src/Health/Overall.antt =====
-- health/service.go: the overall status is the worst of all checks.
use pmi.Base.{
  ℕ, String, ◌≡◌, Bool, true, false, ◌&&◌, ◌||◌, Option, none, some, ltb, if◌then◌else◌, arith,
}
use pmi.Base.Floats.{FloatOps}
use pmi.Health.{
  healthy, degraded, unhealthy, HealthService, Readings, redis_answered, check_redis, check_memory,
  check_disk, check_of, overall_from, checks_of, check_all, used_percent, elevated,
}

-- The ping failed.
abbrev pub unreachable : Option String → Bool
unreachable none = false
unreachable (some e) = true

module _ {ℓ} {F : Type ℓ} (ops : FloatOps F) where
  -- Something fails, or is slow or short.
  abbrev pub failing : Readings → HealthService F → Bool
  failing r s =
      s.has_redis && unreachable r.ping_error || ops.less s.mem_threshold (used_percent ops r)

  abbrev pub strained : Readings → HealthService F → Bool
  strained r s = s.has_redis && ltb 1000 r.ping_ms || ops.less (elevated ops s) (used_percent ops r)

  -- The overall status is unhealthy exactly if there is a client for Redis and its ping fails or
  -- more memory is used than the threshold, and otherwise degraded exactly if that ping takes
  -- more than a second or more memory is used than seven tenths of the threshold.
  pub overall_exact :
      (now : ℕ) (r : Readings) (s : HealthService F)
      → (check_all ops now r s).overall
        ≡ (if failing r s then unhealthy else if strained r s then degraded else healthy)
  unfolding check_all checks_of check_redis redis_answered check_memory check_disk check_of
      overall_from
  overall_exact now r s = ground arith
