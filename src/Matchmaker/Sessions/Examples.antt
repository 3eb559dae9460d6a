-- ===== src/Matchmaker/Sessions/Examples.antt =====
-- matchmaker/session_persist.go: a session with a failover node.
use pmi.Base.{String, ◌≡◌, refl, true, none, [], arith, text_discrete, empty, insert}
use pmi.Matchmaker.Sessions.{SessionInfo, SessionPersistence, get_node_for_session}
use pmi.Matchmaker.Sessions.Failing.{expired_read_unlocks_twice}

abbrev no_sessions : SessionPersistence
no_sessions = record {
  redis = record { connected = true; sent = [] };
  sessions = empty;
  default_ttl = 50;
  readers = 0;
}

abbrev session : SessionInfo
session = record {
  session_id = "s";
  node_id = "n";
  user_id = "u";
  created_at = 5;
  last_used_at = 5;
  expires_at = 55;
  failover_node = "m";
}

abbrev one_session : SessionPersistence
one_session = record no_sessions { sessions = insert "s" session empty }

expired_read_unlocks_twice_example : get_node_for_session true 60 61 "s" one_session ≡ none
unfolding text_discrete
expired_read_unlocks_twice_example =
    expired_read_unlocks_twice 60 61 "s" one_session session refl refl (omega arith) (omega arith)

abbrev shown : SessionInfo → String
shown s = s.session_id
