-- ===== src/Health.antt =====
-- health/service.go: the health of the system. The answer of Redis to a ping, the time it took, in
-- milliseconds, and the bytes of memory in use and obtained are arguments; details are left out.
mod Overall
mod Examples
use pmi.Base.{
  text_append, ℕ, ◌+◌, String, Bool, true, false, Option, none, some, List, [], ◌∷◌, ◌++◌, ltb,
  if◌then◌else◌,
}
use pmi.Base.Floats.{FloatOps}

pub data Component : Type 0 where
  redis : Component
  memory : Component
  disk : Component
  gateway : Component

pub data Status : Type 0 where
  healthy : Status
  degraded : Status
  unhealthy : Status

pub record HealthCheck : Type 0 where
  pub component : Component
  pub status : Status
  pub latency_ms : ℕ
  pub message : String

pub record SystemHealth : Type 0 where
  pub overall : Status
  pub checks : List HealthCheck
  pub timestamp : ℕ

-- `has_redis` says that the client is not nil.
pub record HealthService {ℓ} (F : Type ℓ) : Type ℓ where
  pub has_redis : Bool
  pub mem_threshold : F
  pub disk_threshold : F

-- What one round of checks meets.
pub record Readings : Type 0 where
  pub ping_error : Option String
  pub ping_ms : ℕ
  pub alloc : ℕ
  pub sys : ℕ

check_of : Component → ℕ → Status → String → HealthCheck
check_of part latency_ms verdict message = record {
  component = part;
  status = verdict;
  latency_ms = latency_ms;
  message = message;
}

redis_answered : ℕ → Option String → HealthCheck
unfolding check_of
redis_answered latency (some e) =
    check_of redis latency unhealthy (text_append "Redis connection failed: " e)
redis_answered latency none =
    if ltb 1000 latency
    then check_of redis latency degraded "High latency"
    else check_of redis latency healthy "Connected"

pub check_redis : Readings → HealthCheck
unfolding redis_answered
check_redis r = redis_answered r.ping_ms r.ping_error

pub check_disk : HealthCheck
unfolding check_of
check_disk = check_of disk 0 healthy "Disk check not available on this platform"

-- The loop over the checks.
pub overall_from : List HealthCheck → Status → Status
overall_from [] overall = overall
overall_from (c ∷ cs) overall =
    let as_before = overall_from cs overall in
    let as_degraded = overall_from cs degraded in
    elim c.status [ unhealthy ↦ unhealthy | degraded ↦ as_degraded | healthy ↦ as_before ]

set_thresholds {ℓ} : {F : Type ℓ} → F → F → HealthService F → HealthService F
set_thresholds mem_pct disk_pct s = record s { mem_threshold = mem_pct; disk_threshold = disk_pct }

module _ {ℓ} {F : Type ℓ} (ops : FloatOps F) where
  new_health_service : Bool → HealthService F
  new_health_service has_redis = record {
    has_redis = has_redis;
    mem_threshold = ops.of_nat 90;
    disk_threshold = ops.of_nat 90;
  }

  pub used_percent : Readings → F
  used_percent r = ops.mul (ops.div (ops.of_nat r.alloc) (ops.of_nat r.sys)) (ops.of_nat 100)

  -- 0.7 of the threshold.
  pub elevated : HealthService F → F
  elevated s = ops.mul s.mem_threshold (ops.div (ops.of_nat 7) (ops.of_nat 10))

  pub check_memory : Readings → HealthService F → HealthCheck
  unfolding used_percent elevated check_of
  check_memory r s =
      if ops.less s.mem_threshold (used_percent r)
      then check_of memory 0 unhealthy "Memory usage critical"
      else if ops.less (elevated s) (used_percent r)
      then check_of memory 0 degraded "Memory usage elevated"
      else check_of memory 0 healthy "Memory usage normal"

  checks_of : Readings → HealthService F → List HealthCheck
  unfolding check_redis check_memory check_disk
  checks_of r s =
      let others = check_memory r s ∷ check_disk ∷ [] in
      if s.has_redis then check_redis r ∷ others else others

  pub check_all : ℕ → Readings → HealthService F → SystemHealth
  unfolding checks_of overall_from
  check_all now r s = record {
    overall = overall_from (checks_of r s) healthy;
    checks = checks_of r s;
    timestamp = now;
  }
