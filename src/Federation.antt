-- ===== src/Federation.antt =====
-- federation/service.go: the regions' gateways and the nodes known of each. The nodes of this
-- region's matchmaker and the status of a node are arguments.
mod Regions
mod Examples
use pmi.Base.{
  [], ℕ, ◌-◌, ◌*◌, String, ite, Bool, true, false, Option, none, some, List, ◌∷◌, ltb,
  if◌then◌else◌, text_discrete, StringMap, empty, insert,
}
use pmi.Base.Result.{Result, ok, err}
use pmi.Gateway.RateLimit.{second}

pub record PeerGateway : Type 0 where
  pub region : String
  pub address : String
  pub last_seen : ℕ
  pub healthy : Bool

pub record FederationService : Type 0 where
  pub heartbeat_interval : ℕ
  pub peers : StringMap PeerGateway
  pub node_cache : StringMap (List String)

pub new_federation_service : ℕ → FederationService
new_federation_service heartbeat_interval = record {
  heartbeat_interval = heartbeat_interval;
  peers = empty;
  node_cache = empty;
}

checked : ℕ → ℕ → Option PeerGateway → Option PeerGateway
checked now heartbeat_interval none = none
checked now heartbeat_interval (some peer) =
    if ltb (heartbeat_interval * 3 * second) (now - peer.last_seen)
    then some (record peer { healthy = false })
    else some peer

pub check_peer_health : ℕ → FederationService → FederationService
unfolding checked
check_peer_health now f = record f {
  peers = λ region. checked now f.heartbeat_interval (f.peers region);
}

-- `nodes` is what `GetAllNodes` returns.
sync_nodes : Result (List String) → FederationService → FederationService
sync_nodes (err e) f = f
sync_nodes (ok nodes) f = record f { node_cache = insert "local" nodes f.node_cache }

register_peer : ℕ → String → String → FederationService → FederationService
register_peer now region address f = record f {
  peers =
      insert region (record { region = region; address = address; last_seen = now; healthy = true })
        f.peers;
}

peer_or_new : String → Option PeerGateway → PeerGateway
peer_or_new region none = record { region = region; address = ""; last_seen = 0; healthy = false }
peer_or_new region (some peer) = peer

pub handle_heartbeat : ℕ → String → FederationService → FederationService
unfolding peer_or_new
handle_heartbeat now region f = record f {
  peers =
      insert region
        (record (peer_or_new region (f.peers region)) { last_seen = now; healthy = true }) f.peers;
}

pub handle_node_sync : String → List String → FederationService → FederationService
handle_node_sync region nodes f = record f { node_cache = insert region nodes f.node_cache }

-- Of a message, its type, region and nodes are read.
pub handle_message :
    ℕ → String → String → List String → FederationService → FederationService × Result (Unit {0})
handle_message now type region nodes f =
    ite (text_discrete type "heartbeat") (handle_heartbeat now region f, ok tt)
      (ite (text_discrete type "node_sync") (handle_node_sync region nodes f, ok tt)
        (f, err "unknown message type"))

pub get_nodes_for_region : String → FederationService → Result (List String)
get_nodes_for_region region f = elim (f.node_cache region) [
  | none ↦ err "no nodes found for region"
  | some nodes ↦ ok nodes
]

pub any_node : Result (List String) → Result String
any_node (err e) = err "no nodes available"
any_node (ok []) = err "no nodes available"
any_node (ok (id ∷ ids)) = ok id

first_or : Result String → Result (List String) → Result String
first_or other (err e) = other
first_or other (ok []) = other
first_or other (ok (id ∷ ids)) = ok id

-- The id whose status `SelectNodeByRegion` returns; `all` is what `GetAllNodes` returns.
pub select_node_by_region : Result (List String) → String → FederationService → Result String
unfolding first_or any_node
select_node_by_region all preferred f =
    ite (text_discrete preferred "") (any_node all)
      (first_or (any_node all) (get_nodes_for_region preferred f))
