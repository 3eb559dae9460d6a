-- ===== src/Matchmaker/Latency.antt =====
-- matchmaker/latency.go, `LatencyTracker`: the last latencies of each node, and the fastest nodes.
-- A latency is a number of milliseconds that is not negative, and the sums stay below 2^63. Of
-- Redis, the answer to `ZRange` is an argument, none for an error; so is the order in which a
-- `range` over the map meets its keys.
mod Samples
mod Ranking
mod Examples
use pmi.Base.{
  ℕ, ◌+◌, ◌-◌, ◌*◌, ◌/◌, String, Bool, true, false, Option, none, some, List, [], ◌∷◌, ◌++◌, map,
  ltb, if◌then◌else◌, length, take, drop, StringMap, empty, insert,
}
use pmi.Base.Redis
use pmi.Base.Redis.{Outbox, send}
use mathlib.Core.Option as Option
use pmi.Base.Sort.{exchange_sort}

pub record NodeLatency : Type 0 where
  pub samples : List ℕ
  pub sum : ℕ
  pub avg_latency : ℕ
  pub last_update : ℕ

pub record LatencyTracker : Type 0 where
  pub redis : Outbox
  pub latencies : StringMap NodeLatency
  pub window_size : ℕ
  pub max_samples : ℕ

pub new_latency_tracker : Outbox → ℕ → ℕ → LatencyTracker
new_latency_tracker redis_client window_size max_samples = record {
  redis = redis_client;
  latencies = empty;
  window_size = window_size;
  max_samples = max_samples;
}

latency_or_new : ℕ → Option NodeLatency → NodeLatency
latency_or_new now none = record { samples = []; sum = 0; avg_latency = 0; last_update = now }
latency_or_new now (some latency) = latency

-- `oldest := samples[0]; samples = samples[1:]; sum -= oldest`
drop_oldest : NodeLatency → NodeLatency
drop_oldest latency = elim latency.samples [
  | [] ↦ latency
  | oldest ∷ later ↦ record latency { samples = later; sum = latency.sum - oldest }
]

add_sample : ℕ → ℕ → NodeLatency → NodeLatency
unfolding drop_oldest
add_sample max_samples latency_ms latency =
    let grown = record latency {
      samples = latency.samples ++ (latency_ms ∷ []);
      sum = latency.sum + latency_ms;
    } in
    if ltb max_samples (length grown.samples) then drop_oldest grown else grown

-- None is the panic of the division by the number of samples, which is 0 when `max_samples` is.
recompute : ℕ → NodeLatency → Option NodeLatency
recompute now latency = elim latency.samples [
  | [] ↦ none
  | _ ∷ _ ↦
      some
        (record latency { avg_latency = latency.sum / length latency.samples; last_update = now })
]

store : String → LatencyTracker → NodeLatency → LatencyTracker
store node_id lt latency = record lt {
  latencies = insert node_id latency lt.latencies;
  redis =
      send
        (Redis.hset "latency:ranking" node_id (Redis.number latency.avg_latency)
          ∷ Redis.expire "latency:ranking" lt.window_size
          ∷ [])
        lt.redis;
}

pub record_latency : ℕ → String → ℕ → LatencyTracker → Option LatencyTracker
unfolding latency_or_new add_sample recompute store
record_latency now node_id latency_ms lt =
    let latency = latency_or_new now (lt.latencies node_id) in
    Option.map (store node_id lt) (recompute now (add_sample lt.max_samples latency_ms latency))

get_avg_latency : String → LatencyTracker → ℕ
get_avg_latency node_id lt = elim (lt.latencies node_id) [
  | none ↦ 0
  | some latency ↦ latency.avg_latency
]

pub record LatencyPair : Type 0 where
  pub node_id : String
  pub latency : ℕ

-- The loop over the map, which meets `order`.
pub latency_pairs : List String → LatencyTracker → List LatencyPair
latency_pairs [] lt = []
latency_pairs (node_id ∷ later) lt = elim (lt.latencies node_id) [
  | none ↦ latency_pairs later lt
  | some latency ↦
      record { node_id = node_id; latency = latency.avg_latency } ∷ latency_pairs later lt
]

faster : LatencyPair → LatencyPair → Bool
faster p q = ltb p.latency q.latency

top_locally : List String → ℕ → LatencyTracker → List String
unfolding faster latency_pairs
top_locally order count lt =
    map (λ p. p.node_id) (take count (exchange_sort faster (latency_pairs order lt)))

pub get_top_nodes : Option (List String) → List String → ℕ → LatencyTracker → List String
unfolding top_locally
get_top_nodes z_range order count lt = elim lt.redis.connected [
  | false ↦ top_locally order count lt
  | true ↦ elim z_range [ some results ↦ results | none ↦ top_locally order count lt ]
]

-- The loop that keeps the least and the greatest sample met.
widen : ℕ → ℕ → List ℕ → ℕ × ℕ
widen least greatest [] = (least, greatest)
widen least greatest (s ∷ later) =
    widen (if ltb s least then s else least) (if ltb greatest s then s else greatest) later

-- None is the panic of `samples[0]`.
stats_of : NodeLatency → Option (ℕ × ℕ × ℕ)
unfolding widen
stats_of latency = elim latency.samples [
  | [] ↦ none
  | s ∷ later ↦
      let (least, greatest) = widen s s (s ∷ later) in some (latency.avg_latency, least, greatest)
]

-- A node that is not tracked has 0 for all three.
stats_or_zero : Option NodeLatency → Option (ℕ × ℕ × ℕ)
unfolding stats_of
stats_or_zero none = some (0, 0, 0)
stats_or_zero (some latency) = stats_of latency

pub get_latency_stats : String → LatencyTracker → Option (ℕ × ℕ × ℕ)
unfolding stats_or_zero
get_latency_stats node_id lt = stats_or_zero (lt.latencies node_id)

-- One tick of `cleanupLoop`.
pub cleanup : ℕ → LatencyTracker → LatencyTracker
cleanup now lt = record lt {
  latencies = λ node_id. elim (lt.latencies node_id) [
    | none ↦ none
    | some latency ↦
        if ltb (latency.last_update + lt.window_size * 2) now then none else some latency
  ];
}
