-- ===== src/Gateway/Selector/Examples.antt =====
-- gateway/validation.go: three nodes.
use pmi.Base.{
  ℕ, ◌<◌, String, ◌≡◌, refl, none, some, List, [], ◌∷◌, arith, length, get_elem?, ite,
  text_discrete,
}
use pmi.Gateway.Selector.{NodeSelector, new_node_selector, round_robin, lowest_latency, select}
use pmi.Gateway.Selector.Rotation.{after, every_node_has_its_turn}

abbrev nodes : List String
nodes = "a" ∷ "b" ∷ "c" ∷ []

abbrev clock : ℕ → ℕ
clock k = k

every_node_has_its_turn_example :
    (j : ℕ) × (j < length nodes)
    × ((select 5 nodes (after clock nodes j (new_node_selector round_robin none))).1
        ≡ get_elem? nodes 2)
unfolding new_node_selector
every_node_has_its_turn_example =
    every_node_has_its_turn clock 5 nodes (new_node_selector round_robin none) 2 refl (omega arith)

abbrev latency_of : String → ℕ
latency_of node_id = ite (text_discrete node_id "b") 20 30

abbrev by_latency : NodeSelector
by_latency = new_node_selector lowest_latency (some latency_of)

-- A node whose latency is not known, which is 0, is taken, and then given up for any that follows:
-- here for one of 80 ms, when the first of the list has 50 ms.
abbrev unmeasured : String → ℕ
unmeasured node_id = ite (text_discrete node_id "a") 50 (ite (text_discrete node_id "b") 0 80)

unmeasured_misleads :
    (select 5 nodes (new_node_selector lowest_latency (some unmeasured))).1 ≡ some "c"
unfolding select new_node_selector pmi.Gateway.Selector.select_by
    pmi.Gateway.Selector.select_lowest_latency pmi.Gateway.Selector.lowest_from
    pmi.Base.text_discrete
unmeasured_misleads = refl
