-- ===== src/Gateway/Proxy/Examples.antt =====
-- gateway/service.go: two requests of a session.
use pmi.Base.{ℕ, String, true, false, Option, none, some, List, [], ◌∷◌, ite}
use pmi.Base.Result.{err}
use pmi.Base.Redis
use pmi.Base.Redis.{Outbox}
use pmi.Matchmaker.Breaker.{new_breakers}
use pmi.Matchmaker.Selection.{Floats, Reads, Node}
use pmi.Gateway.Proxy.{Gateway, Connection, broken, written, ProxyReply, Sessions, ProxyRequest}
use pmi.Gateway.Proxy.Load.{Arrival, handle_all}

abbrev naturals : Floats
naturals = record {
  Float = ℕ;
  literal = λ n. n;
  neg = λ x. 0;
  add = λ x y. x;
  mul = λ x y. x;
  div = λ x y. x;
  exp = λ x. 1;
  hours = λ t. t;
  gt = λ x y. false;
}

abbrev reads : Reads naturals
reads = record {
  nodes_by_city = λ country city. err "no nodes";
  top_nodes = λ country. err "no nodes";
  is_in_cooldown = λ target id. some false;
  node_meta = λ id. err "no node";
  load = λ id. 0;
  reputation = λ id. 0;
  node_last_seen = λ id. none;
  health_score = λ id. none;
}

abbrev node : Node
node = record { id = "n1"; country = "de"; city = ""; isp = ""; os = ""; last_seen = 7 }

abbrev sessions : Sessions
sessions = record { session_node = λ id. some "n1"; node_status = λ id. some node }

abbrev arrival : Connection → Arrival
arrival c = record {
  now = 8;
  request = record { target = "example.org"; country = "de"; city = ""; session_id = "s" };
  connection = λ n. c;
}

abbrev arrivals : List Arrival
arrivals = arrival written ∷ arrival broken ∷ []

abbrev gateway : Gateway
gateway = record {
  redis = record { connected = true; sent = [] };
  breakers = new_breakers 3;
  node_failures = λ i. 0;
  circuit_breaker_threshold = 3;
}

abbrev handled : Gateway × List ProxyReply
handled = handle_all naturals (λ n. none) reads sessions (λ target. false) arrivals gateway
