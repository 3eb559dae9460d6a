-- ===== src/Gateway/Proxy/Load.antt =====
-- gateway/service.go: what requests of a session do to the load of its node.
use pmi.Base.{ℕ, String, ◌≡◌, refl, Bool, false, Option, some, List, [], ◌∷◌}
use pmi.Base.Redis
use pmi.Matchmaker.Selection.{Floats, Reads, Node}
use pmi.Gateway.Proxy.{
  Gateway, Connection, broken, written, ProxyReply, bad_gateway, connected, Sessions, ProxyRequest,
  forward_request, cached_node, proxy_handler, serve,
}

-- A request, and what the connection to its node does.
pub record Arrival : Type 0 where
  pub now : ℕ
  pub request : ProxyRequest
  pub connection : Node → Connection

-- The reply that is about the node.
pub reply_of : Node → Connection → ProxyReply
reply_of node broken = bad_gateway node
reply_of node written = connected node

module _ (floats : Floats) (pick : ℕ → Option ℕ) (reads : Reads floats) (sessions : Sessions)
    (is_blocked : String → Bool) where
  -- The requests one after another, with their replies.
  pub handle_all : List Arrival → Gateway → Gateway × List ProxyReply
  handle_all [] g = (g, [])
  handle_all (a ∷ later) g =
      let (g', reply) =
        proxy_handler floats pick reads sessions is_blocked a.connection a.now a.request g in
      let (g'', replies) = handle_all later g' in (g'', reply ∷ replies)

  -- A request of a session that is bound to the node, for a target that is not blocked.
  abbrev pub IsOfSession : Node → Arrival → Type 0
  IsOfSession node a =
      (is_blocked a.request.target ≡ false)
      × (cached_node sessions a.request.session_id ≡ some node)

  handled :
      (node : Node) (a : Arrival) (g : Gateway)
      → is_blocked a.request.target ≡ false
      → cached_node sessions a.request.session_id ≡ some node
      → proxy_handler floats pick reads sessions is_blocked a.connection a.now a.request g
        ≡ forward_request (a.connection node) node g
  unfolding proxy_handler serve
  handled node a g free bound = rw (proxy_handler, free, bound) refl
