-- ===== src/Health/Examples.antt =====
-- health/service.go: a system whose Redis is slow, and one whose Redis is gone.
use pmi.Base.{ℕ, ◌≡◌, true, none, some}
use pmi.Base.Floats.{nat_ops}
use pmi.Health.{Status, healthy, degraded, unhealthy, HealthService, Readings, check_all}
use pmi.Health.Overall.{overall_exact}

abbrev service : HealthService ℕ
service = record { has_redis = true; mem_threshold = 90; disk_threshold = 90 }

abbrev slow : Readings
slow = record { ping_error = none; ping_ms = 1500; alloc = 0; sys = 100 }

abbrev gone : Readings
gone = record slow { ping_error = some "refused" }

overall_exact_example : (check_all nat_ops 7 slow service).overall ≡ degraded
unfolding pmi.Health.used_percent pmi.Health.elevated
overall_exact_example = overall_exact nat_ops 7 slow service

gone_unhealthy : (check_all nat_ops 7 gone service).overall ≡ unhealthy
unfolding pmi.Health.used_percent pmi.Health.elevated
gone_unhealthy = overall_exact nat_ops 7 gone service
