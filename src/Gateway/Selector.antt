-- ===== src/Gateway/Selector.antt =====
-- gateway/validation.go, `NodeSelector`: a node out of a list, by a strategy. The latencies that
-- the tracker knows, if there is one, are an argument, and so is the clock in nanoseconds.
mod Lowest
mod Rotation
mod Examples
use pmi.Base.{
  ℕ, ◌+◌, ◌%◌, String, Bool, true, false, ◌||◌, Option, none, some, List, [], ◌∷◌, ltb, ◌==◌,
  if◌then◌else◌, length, get_elem?,
}

pub data NodeSelectionStrategy : Type 0 where
  random : NodeSelectionStrategy
  least_load : NodeSelectionStrategy
  lowest_latency : NodeSelectionStrategy
  highest_rep : NodeSelectionStrategy
  round_robin : NodeSelectionStrategy
  -- any other text
  unknown : NodeSelectionStrategy

pub record NodeSelector : Type 0 where
  pub strategy : NodeSelectionStrategy
  pub latency_tracker : Option (String → ℕ)
  pub rr_counter : ℕ

pub new_node_selector : NodeSelectionStrategy → Option (String → ℕ) → NodeSelector
new_node_selector strategy latency_tracker = record {
  strategy = strategy;
  latency_tracker = latency_tracker;
  rr_counter = 0;
}

set_strategy : NodeSelectionStrategy → NodeSelector → NodeSelector
set_strategy strategy ns = record ns { strategy = strategy }

-- `nodes[idx]`, none for a panic.
select_random : ℕ → List String → Option String
select_random now nodes = get_elem? nodes (now % length nodes)

-- The loop over the rest of the nodes.
pub lowest_from : (String → ℕ) → String → ℕ → List String → String
lowest_from latency_of best_node best_latency [] = best_node
lowest_from latency_of best_node best_latency (node ∷ later) =
    let latency = latency_of node in
    let takes = ltb latency best_latency || best_latency == 0 in
    lowest_from latency_of (if takes then node else best_node)
      (if takes then latency else best_latency) later

-- For a list with a first node.
select_lowest_latency : Option (String → ℕ) → String → List String → String
unfolding lowest_from
select_lowest_latency none first later = first
select_lowest_latency (some latency_of) first later =
    lowest_from latency_of first (latency_of first) later

pub select_round_robin : List String → NodeSelector → NodeSelector × Option String
select_round_robin nodes ns =
    let idx = ns.rr_counter % length nodes in
    (record ns { rr_counter = ns.rr_counter + 1 }, get_elem? nodes idx)

-- By the strategy, for a list with a first node.
select_by :
    ℕ → NodeSelectionStrategy → String → List String → NodeSelector → NodeSelector × Option String
unfolding select_random select_lowest_latency select_round_robin
select_by now random first later ns = (ns, select_random now (first ∷ later))
select_by now least_load first later ns = (ns, some first)
select_by now lowest_latency first later ns =
    (ns, some (select_lowest_latency ns.latency_tracker first later))
select_by now highest_rep first later ns = (ns, some first)
select_by now round_robin first later ns = select_round_robin (first ∷ later) ns
select_by now unknown first later ns = (ns, some first)

-- "" for an empty list, and none for a panic.
pub select : ℕ → List String → NodeSelector → NodeSelector × Option String
unfolding select_by
select now [] ns = (ns, some "")
select now (first ∷ later) ns = select_by now ns.strategy first later ns
