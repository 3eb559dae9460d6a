-- ===== src/Matchmaker/PeerHealth/Examples.antt =====
-- matchmaker/peer_health.go: two peers, with natural numbers for the scores.
use pmi.Base.{
  ℕ, ◌+◌, ◌-◌, ◌*◌, ◌/◌, min, String, ◌≡◌, refl, false, List, [], ◌∷◌, ◌++◌, arith, ltb, leb,
  length, empty, insert,
}
use pmi.Base.Sort.{exchange_sort}
use pmi.Base.Floats.{nat_ops}
use pmi.Matchmaker.PeerHealth.{PeerHealth, PeerHealthScore, all_peers, get_top_peers}

abbrev peer : String → ℕ → PeerHealth ℕ
peer node_id score = record {
  node_id = node_id;
  connection_score = score;
  latency_score = score;
  bandwidth_score = score;
  reliability_score = score;
  overall_score = score;
  last_checked = 0;
}

abbrev peers : PeerHealthScore ℕ
peers = record {
  scores = insert "a" (peer "a" 40) (insert "b" (peer "b" 90) empty);
  redis = record { connected = false; sent = [] };
}

abbrev order : List String
order = "a" ∷ "b" ∷ []

highest_is_b : get_top_peers nat_ops order 1 peers ≡ peer "b" 90 ∷ []
unfolding get_top_peers all_peers exchange_sort pmi.Matchmaker.PeerHealth.higher
    pmi.Base.text_discrete
highest_is_b = refl
