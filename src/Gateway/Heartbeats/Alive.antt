-- ===== src/Gateway/Heartbeats/Alive.antt =====
-- gateway/validation.go: how long a connection counts as alive after a pong.
use pmi.Base.{
  ℕ, ◌+◌, String, ◌≡◌, refl, ◌∙◌, Bool, true, false, Bool-cases, inl, inr, ◌&&◌, not, some, List,
  [], ◌∷◌, ltb, insert_self, arith,
}
use pmi.Gateway.Heartbeats.{
  WsConnection, WebSocketHeartbeat, register_connection, record_pong, is_alive, checked, cleanup,
}

-- No round comes more than the timeout after `t`.
all_within : ℕ → ℕ → List ℕ → Bool
all_within t timeout [] = true
all_within t timeout (now ∷ later) = not (ltb (t + timeout) now) && all_within t timeout later

-- Rounds of the cleanup, in order.
cleanups : List ℕ → WebSocketHeartbeat → WebSocketHeartbeat
cleanups [] wsh = wsh
cleanups (now ∷ later) wsh = cleanups later (cleanup now wsh)

alive_from :
    (rounds : List ℕ) (id : String) (conn : WsConnection) (wsh : WebSocketHeartbeat)
    → wsh.connections id ≡ some conn
    → is_alive id (cleanups rounds wsh)
      ≡ (conn.is_alive && all_within conn.last_pong wsh.timeout rounds)
unfolding is_alive cleanups all_within cleanup checked
alive_from [] id conn wsh e = ground (arith, e)
alive_from (now ∷ later) id conn wsh e =
    elim (Bool-cases (ltb (conn.last_pong + wsh.timeout) now)) [
      | inl late ↦
          alive_from later id (record conn { is_alive = false }) (cleanup now wsh)
            (rw e (rw late refl))
          ∙ ground arith
      | inr in_time ↦
          alive_from later id conn (cleanup now wsh) (rw e (rw in_time refl)) ∙ ground arith
    ]

-- After a pong of a connection that is registered, and any rounds of the cleanup, it is alive
-- exactly if no round came more than the timeout after the pong; a connection that is registered
-- likewise, from its registration.
alive_since :
    (t : ℕ) (rounds : List ℕ) (id node addr : String) (conn : WsConnection)
    (wsh : WebSocketHeartbeat)
    → wsh.connections id ≡ some conn
    → (is_alive id (cleanups rounds (record_pong t id wsh)) ≡ all_within t wsh.timeout rounds)
      × (is_alive id (cleanups rounds (register_connection t id node addr wsh))
          ≡ all_within t wsh.timeout rounds)
unfolding record_pong register_connection
alive_since t rounds id node addr conn wsh e = (
  rw (record_pong, e)
      (alive_from rounds id (record conn { last_pong = t; is_alive = true }) _
        (insert_self id _ wsh.connections)),
  alive_from rounds id _ (register_connection t id node addr wsh)
      (insert_self id _ wsh.connections),
)
