-- ===== src/Matchmaker/HealthHistory/Examples.antt =====
-- matchmaker/health_history.go: a history of two entries.
use pmi.Base.{ℕ, String, ◌≡◌, refl, false, none, List, [], ◌∷◌, take}
use pmi.Base.Redis.{Outbox}
use pmi.Base.Window.{newest}
use pmi.Matchmaker.HealthHistory.{HealthStatus, new_health_history, history_limit}
use pmi.Matchmaker.HealthHistory.Kept.{of_node}

abbrev no_redis : Outbox
no_redis = record { connected = false; sent = [] }

abbrev checked : String → ℕ → HealthStatus
checked node_id timestamp = record {
  node_id = node_id;
  status = "healthy";
  message = "";
  latency_ms = 5;
  timestamp = timestamp;
}

abbrev entries : List HealthStatus
entries = checked "a" 1 ∷ checked "b" 2 ∷ checked "a" 3 ∷ checked "a" 4 ∷ []

abbrev encode : HealthStatus → String
encode entry = entry.status

abbrev decode : String → String → HealthStatus
decode node_id text = checked node_id 0

-- The one entry returned is the older of the two that are kept.
one_is_the_oldest :
    take
      (history_limit 1 (new_health_history no_redis 2))
      (newest (new_health_history no_redis 2).max_entries (of_node "a" entries))
    ≡ checked "a" 3 ∷ []
unfolding history_limit new_health_history of_node pmi.Base.text_discrete
one_is_the_oldest = refl
