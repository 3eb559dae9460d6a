-- ===== src/Matchmaker/HealthHistory.antt =====
-- matchmaker/health_history.go, `HealthHistory`: the last health checks of each node. A limit that
-- is not positive is 0 here, `encode` and `decode` are the `Sprintf` and the `Sscanf` of an entry
-- that is stored in Redis, and the answer to `LRange` is an argument, none for an error.
mod Kept
mod Examples
use pmi.Base.{
  text_append, ℕ, ◌+◌, ◌-◌, ◌/◌, String, Bool, true, false, ◌||◌, Option, none, some, List, [], ◌∷◌,
  map, ltb, leb, if◌then◌else◌, length, take, ite, text_discrete,
}
use pmi.Base.Redis
use pmi.Base.Redis.{Outbox, send}
use pmi.Base.Window.{append_bounded}

pub record HealthStatus : Type 0 where
  pub node_id : String
  pub status : String
  pub message : String
  pub latency_ms : ℕ
  pub timestamp : ℕ

-- A node with no key in `history` reads as an empty list.
pub record HealthHistory : Type 0 where
  pub history : String → List HealthStatus
  pub redis : Outbox
  pub max_entries : ℕ

pub new_health_history : Outbox → ℕ → HealthHistory
new_health_history redis_client max_entries = record {
  history = λ _. [];
  redis = redis_client;
  max_entries = if leb max_entries 0 then 100 else max_entries;
}

health_key : String → String
health_key node_id = text_append "health:" node_id

module _ (encode : HealthStatus → String) where
  pub record_health : HealthStatus → HealthHistory → HealthHistory
  record_health entry hh = record hh {
    history = λ i.
        ite (text_discrete entry.node_id i)
          (append_bounded hh.max_entries entry (hh.history entry.node_id)) (hh.history i);
    redis =
        send
          (Redis.rpush (health_key entry.node_id) (encode entry)
            ∷ Redis.ltrim (health_key entry.node_id) hh.max_entries
            ∷ [])
          hh.redis;
  }

-- The limit that `GetHistory` applies.
pub history_limit : ℕ → HealthHistory → ℕ
history_limit limit hh = if leb limit 0 || ltb hh.max_entries limit then hh.max_entries else limit

-- What Redis has, when the process has nothing.
kept_or : List HealthStatus → List HealthStatus → List HealthStatus
kept_or stored [] = stored
kept_or stored (entry ∷ later) = entry ∷ later

module _ (decode : String → String → HealthStatus) where
  from_redis : Option (List String) → String → HealthHistory → List HealthStatus
  from_redis l_range node_id hh = elim hh.redis.connected [
    | false ↦ []
    | true ↦ elim l_range [ none ↦ [] | some entries ↦ map (decode node_id) entries ]
  ]

  pub get_history : Option (List String) → String → ℕ → HealthHistory → List HealthStatus
  unfolding history_limit from_redis kept_or
  get_history l_range node_id limit hh =
      let limit' = history_limit limit hh in
      let history = kept_or (from_redis l_range node_id hh) (hh.history node_id) in
      if ltb limit' (length history) then take limit' history else history

-- The loop that keeps the entries after `now - duration`.
after : ℕ → ℕ → List HealthStatus → List HealthStatus
after now duration [] = []
after now duration (entry ∷ later) =
    let result = after now duration later in
    if ltb now (entry.timestamp + duration) then entry ∷ result else result

get_status_timeline : ℕ → String → ℕ → HealthHistory → List HealthStatus
unfolding after
get_status_timeline now node_id duration hh = after now duration (hh.history node_id)

count_healthy : List HealthStatus → ℕ
count_healthy [] = 0
count_healthy (entry ∷ later) =
    ite (text_discrete entry.status "healthy") (count_healthy later + 1) (count_healthy later)

-- How many entries of the timeline are healthy, and of how many: the percentage is their quotient,
-- and 0 for an empty timeline.
get_uptime : ℕ → String → ℕ → HealthHistory → ℕ × ℕ
unfolding count_healthy
get_uptime now node_id duration hh =
    let timeline = get_status_timeline now node_id duration hh in
    (count_healthy timeline, length timeline)

sum_latencies : List HealthStatus → ℕ
sum_latencies [] = 0
sum_latencies (entry ∷ later) = entry.latency_ms + sum_latencies later

average_of : List HealthStatus → ℕ
unfolding sum_latencies
average_of [] = 0
average_of (entry ∷ later) = sum_latencies (entry ∷ later) / length (entry ∷ later)

get_average_latency : ℕ → String → ℕ → HealthHistory → ℕ
unfolding average_of
get_average_latency now node_id duration hh =
    average_of (get_status_timeline now node_id duration hh)
