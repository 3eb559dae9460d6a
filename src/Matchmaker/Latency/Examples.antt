-- ===== src/Matchmaker/Latency/Examples.antt =====
-- matchmaker/latency.go: two nodes and a window of two samples.
use pmi.Base.{
  ℕ, ◌+◌, ◌≤◌, min, String, ◌≡◌, refl, true, false, Option, none, some, List, [], ◌∷◌, ◌++◌, map,
  arith, length, empty, insert,
}
use pmi.Base.Redis.{Outbox}
use pmi.Base.Sort.{Sorted, exchange_sort}
use mathlib.Core.List.{Perm}
use pmi.Matchmaker.Latency.{
  LatencyTracker, NodeLatency, LatencyPair, latency_pairs, get_top_nodes, get_latency_stats,
  record_latency, new_latency_tracker,
}
use pmi.Matchmaker.Latency.Samples.{Call, record_all, recorded, IsSummary, samples_exact}
use pmi.Matchmaker.Latency.Ranking.{NotSlower, top_nodes_fastest}

abbrev no_redis : Outbox
no_redis = record { connected = false; sent = [] }

abbrev call : ℕ → String → ℕ → Call
call now node_id latency_ms = record { now = now; node_id = node_id; latency_ms = latency_ms }

abbrev calls : List Call
calls = call 1 "a" 40 ∷ call 2 "b" 10 ∷ call 3 "a" 20 ∷ call 4 "a" 30 ∷ []

samples_exact_example :
    (lt : LatencyTracker) × (record_all calls (new_latency_tracker no_redis 60 2) ≡ some lt)
    × ((node_id : String) → IsSummary 2 (recorded node_id calls) (lt.latencies node_id))
samples_exact_example = samples_exact calls no_redis 60 2 (omega arith)

-- With a limit of 0 the first call divides by 0.
zero_samples_panic : record_latency 1 "a" 40 (new_latency_tracker no_redis 60 0) ≡ none
unfolding record_latency new_latency_tracker pmi.Matchmaker.Latency.recompute
    pmi.Matchmaker.Latency.add_sample pmi.Matchmaker.Latency.drop_oldest
    pmi.Matchmaker.Latency.latency_or_new
zero_samples_panic = refl

abbrev entry : ℕ → NodeLatency
entry ms = record { samples = ms ∷ []; sum = ms; avg_latency = ms; last_update = 1 }

abbrev two_nodes : LatencyTracker
two_nodes = record {
  redis = no_redis;
  latencies = insert "a" (entry 40) (insert "b" (entry 10) empty);
  window_size = 60;
  max_samples = 2;
}

abbrev order : List String
order = "a" ∷ "b" ∷ []

top_nodes_fastest_example :
    (best : List LatencyPair) × (rest : List LatencyPair) × (get_top_nodes none order 1 two_nodes
      ≡ map (λ p. p.node_id) best)
    × Perm (latency_pairs order two_nodes) (best ++ rest)
    × Sorted NotSlower (best ++ rest)
    × (length best ≡ min 1 (length (best ++ rest)))
top_nodes_fastest_example = top_nodes_fastest order 1 two_nodes

fastest_is_b : get_top_nodes none order 1 two_nodes ≡ "b" ∷ []
unfolding get_top_nodes latency_pairs exchange_sort pmi.Matchmaker.Latency.top_locally
    pmi.Matchmaker.Latency.faster pmi.Base.text_discrete
fastest_is_b = refl
