-- ===== src/Gateway/Ddos/Examples.antt =====
-- gateway/ddos_shaper.go: a client whose requests fail.
use pmi.Base.{◌*◌, false, [], empty}
use pmi.Gateway.RateLimit.{second}
use pmi.Gateway.Ddos.{DdosProtection}

abbrev two_failures : DdosProtection
two_failures = record {
  redis = record { connected = false; sent = [] };
  failed_requests = empty;
  threshold = 2;
  window_seconds = 60;
  block_duration = 300 * second;
  whitelist = empty;
}
