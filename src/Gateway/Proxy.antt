-- ===== src/Gateway/Proxy.antt =====
-- gateway/service.go, `proxyHandler` and `forwardRequest`: a request is served by its session's
-- node or by one that the matchmaker selects. What the node's connection does, what the block
-- list says, and the answers of Redis on sessions and nodes are arguments. `isNodeHealthy` and
-- `validateKYC`, which always hold, are left out, as are headers, metrics and the local address.
mod Load
mod Examples
use pmi.Base.{
  text_append, ℕ, ◌+◌, ◌*◌, String, Bool, true, false, Option, none, some, List, [], ◌∷◌, leb,
  if◌then◌else◌, ite, text_discrete,
}
use pmi.Base.Result.{Result, ok, err}
use pmi.Base.Redis
use pmi.Base.Redis.{Outbox, send}
use pmi.Gateway.RateLimit.{second}
use pmi.Matchmaker.Breaker as Breaker
use pmi.Matchmaker.Breaker.{Breakers}
use pmi.Matchmaker.Selection.{Floats, Reads, Node, select_node}

pub record Gateway : Type 0 where
  pub redis : Outbox
  pub breakers : Breakers
  -- a node with no key reads as 0
  pub node_failures : String → ℕ
  pub circuit_breaker_threshold : ℕ

pub data Connection : Type 0 where
  -- `connPool.Get` or the write of the CONNECT request fails
  broken : Connection
  written : Connection

-- The status, and the node that it is about.
pub data ProxyReply : Type 0 where
  aborted : ℕ → ProxyReply
  bad_gateway : Node → ProxyReply
  connected : Node → ProxyReply

pub record_failure : String → Gateway → Gateway
record_failure node_id g =
    let failures = g.node_failures node_id + 1 in
    record g {
      node_failures = λ i. ite (text_discrete node_id i) failures (g.node_failures i);
      breakers =
          if leb g.circuit_breaker_threshold failures
          then Breaker.record_failure node_id g.breakers
          else g.breakers;
    }

pub record_success : String → Gateway → Gateway
record_success node_id g = record g {
  node_failures = λ i. ite (text_discrete node_id i) 0 (g.node_failures i);
  breakers = Breaker.record_success node_id g.breakers;
}

pub load_key : String → String
load_key node_id = text_append "node_load:" node_id

-- `defer g.matchmaker.DecrementNodeLoad(node.ID)`
decrement_node_load : String → Gateway → Gateway
unfolding load_key
decrement_node_load node_id g = record g {
  redis = send (Redis.decr (load_key node_id) ∷ []) g.redis;
}

pub forward_request : Connection → Node → Gateway → Gateway × ProxyReply
unfolding decrement_node_load record_failure record_success
forward_request broken node g =
    (decrement_node_load node.id (record_failure node.id g), bad_gateway node)
forward_request written node g =
    (decrement_node_load node.id (record_success node.id g), connected node)

-- What `GetSessionNode` and then `GetNodeStatus` answer: none for an error, or for no node.
pub record Sessions : Type 0 where
  pub session_node : String → Option String
  pub node_status : String → Option Node

node_of : Sessions → Option String → Option Node
node_of sessions none = none
node_of sessions (some node_id) = ite (text_discrete node_id "") none (sessions.node_status node_id)

pub cached_node : Sessions → String → Option Node
unfolding node_of
cached_node sessions session_id =
    ite (text_discrete session_id "") none (node_of sessions (sessions.session_node session_id))

-- `SetSessionNode(…, 3600)`, which sends nothing for a node with no id.
set_session_node : String → String → Gateway → Gateway
set_session_node session_id node_id g = ite (text_discrete session_id "") g (
    ite (text_discrete node_id "") g (record g {
      redis =
          send
            (Redis.set (text_append "session:" session_id) (Redis.text node_id) (3600 * second)
              ∷ [])
            g.redis;
    }))

pub record ProxyRequest : Type 0 where
  pub target : String
  pub country : String
  pub city : String
  pub session_id : String

module _ (floats : Floats) where
  serve_selected :
      (Node → Connection) → ProxyRequest → Gateway → Outbox × Result Node → Gateway × ProxyReply
  unfolding set_session_node forward_request
  serve_selected connection req g (redis, err e) = (record g { redis = redis }, aborted 503)
  serve_selected connection req g (redis, ok node) =
      forward_request (connection node) node
        (set_session_node req.session_id node.id (record g { redis = redis }))

  serve :
      (ℕ → Option ℕ)
      → Reads floats
      → (Node → Connection)
      → ℕ
      → ProxyRequest
      → Gateway
      → Option Node
      → Gateway × ProxyReply
  unfolding serve_selected forward_request
  serve pick reads connection now req g (some node) = forward_request (connection node) node g
  serve pick reads connection now req g none =
      serve_selected connection req g
        (select_node floats pick reads g.breakers now req.country req.city req.target g.redis)

  pub proxy_handler :
      (ℕ → Option ℕ)
      → Reads floats
      → Sessions
      → (String → Bool)
      → (Node → Connection)
      → ℕ
      → ProxyRequest
      → Gateway
      → Gateway × ProxyReply
  unfolding serve cached_node
  proxy_handler pick reads sessions is_blocked connection now req g =
      if is_blocked req.target
      then (g, aborted 403)
      else serve pick reads connection now req g (cached_node sessions req.session_id)
