-- ===== src/Gateway/ConnPool/Sequential.antt =====
-- gateway/connpool.go: calls made one after another.
use pmi.Base.{
  insert_self, ℕ, ◌+◌, ◌≤◌, String, ◌≡◌, refl, ◌∙◌, inl, inr, Option, none, some, List, [], ◌∷◌,
  ◌++◌, arith, ltb, if◌then◌else◌, Option-cases, length, insert, length-append,
}
use pmi.Gateway.ConnPool.{
  NodePool, ConnPool, new_conn_pool, get_pool, take_conn, get, send_conn, put_conn, put, stats,
  close,
}

-- `active` counts the idle connections, and they fit the channel.
pub record Inv (p : ConnPool) : Type 0 where
  pub counts :
      (addr : String) (pool : NodePool)
      → p.pools addr ≡ some pool
      → (pool.active ≡ length pool.conns) × (pool.active ≤ p.max_size)

get_pool_lem :
    (addr : String) (p : ConnPool)
    → Inv p
    → Inv (get_pool addr p).0
      × ((get_pool addr p).0.pools addr ≡ some (get_pool addr p).1)
      × ((get_pool addr p).0.max_size ≡ p.max_size)
unfolding get_pool
get_pool_lem addr p v = elim (Option-cases (p.pools addr)) [
  | inl e ↦
      rw (e, get_pool)
        (
          record { counts = λ a pool h. ground (arith, v.counts a pool) },
          insert_self addr (record { conns = []; addr = addr; active = 0 }) p.pools,
          refl,
        )
  | inr (pool, e) ↦ rw (e, get_pool) (v, e, refl)
]

take_conn-Inv :
    (dialled : Option ℕ) (addr : String) (p : ConnPool) (pool : NodePool)
    → Inv p
    → p.pools addr ≡ some pool
    → Inv (take_conn dialled addr p pool).0
unfolding take_conn
take_conn-Inv dialled addr p pool v e = record {
  counts = λ a q h. ground (arith, v.counts a q, v.counts addr pool e);
}

put_conn-Inv :
    (c : ℕ) (addr : String) (p : ConnPool) (pool : NodePool)
    → Inv p
    → p.pools addr ≡ some pool
    → Inv (put_conn c addr p pool)
unfolding put_conn send_conn
put_conn-Inv c addr p pool v e = record {
  counts = λ a q h.
      ground (arith, v.counts a q, v.counts addr pool e, length-append {0} pool.conns (c ∷ []));
}

get-Inv : (dialled : Option ℕ) (addr : String) (p : ConnPool) → Inv p → Inv (get dialled addr p).0
unfolding get
get-Inv dialled addr p v =
    let (v', e, _) = get_pool_lem addr p v in
    take_conn-Inv dialled addr (get_pool addr p).0 (get_pool addr p).1 v' e

put-Inv : (addr : String) (conn : Option ℕ) (p : ConnPool) → Inv p → Inv (put addr conn p)
unfolding put
put-Inv addr none p v = v
put-Inv addr (some c) p v =
    let (v', e, _) = get_pool_lem addr p v in
    put_conn-Inv c addr (get_pool addr p).0 (get_pool addr p).1 v' e

-- The calls that a gateway makes.
pub data Call : Type 0 where
  get_call : Option ℕ → String → Call
  put_call : String → Option ℕ → Call
  close_call : List String → Call

unfoldable pub step : Call → ConnPool → ConnPool
step (get_call dialled addr) p = (get dialled addr p).0
step (put_call addr conn) p = put addr conn p
step (close_call addrs) p = close addrs p

unfoldable pub run : List Call → ConnPool → ConnPool
run [] p = p
run (c ∷ cs) p = run cs (step c p)

step-Inv : (c : Call) (p : ConnPool) → Inv p → Inv (step c p)
unfolding step close
step-Inv (get_call dialled addr) p v = get-Inv dialled addr p v
step-Inv (put_call addr conn) p v = put-Inv addr conn p v
step-Inv (close_call addrs) p v = record { counts = λ a pool h. absurd (cc) }

run-Inv : (cs : List Call) (p : ConnPool) → Inv p → Inv (run cs p)
unfolding run
run-Inv [] p v = v
run-Inv (c ∷ cs) p v = run-Inv cs (step c p) (step-Inv c p v)

step-max_size : (c : Call) (p : ConnPool) → (step c p).max_size ≡ p.max_size
unfolding step get put get_pool take_conn put_conn send_conn close
step-max_size (get_call dialled addr) p = ground arith
step-max_size (put_call addr conn) p = ground arith
step-max_size (close_call addrs) p = refl

run-max_size : (cs : List Call) (p : ConnPool) → (run cs p).max_size ≡ p.max_size
unfolding run
run-max_size [] p = refl
run-max_size (c ∷ cs) p = run-max_size cs (step c p) ∙ step-max_size c p

-- After any calls on a new pool, `Stats` of an address is the number of its idle connections, and
-- at most the size that the pool was made with.
stats_bounded :
    (max_per_node : ℕ) (cs : List Call) (addr : String) (pool : NodePool)
    → let p = run cs (new_conn_pool max_per_node) in
      p.pools addr ≡ some pool
      → (stats addr p ≡ some (length pool.conns)) × (length pool.conns ≤ max_per_node)
unfolding new_conn_pool stats
stats_bounded max_per_node cs addr pool e =
    let p = run cs (new_conn_pool max_per_node) in
    let v = run-Inv cs (new_conn_pool max_per_node) (record { counts = λ a q h. absurd (cc) }) in
    ground (arith, v.counts addr pool e, run-max_size cs (new_conn_pool max_per_node))

-- On a pool that counts its idle connections right and holds no more than its size, `Put` appends
-- the connection to the idle ones if there is room, and closes it otherwise; and `Get` hands out
-- the oldest, or what it dialled if none is idle.
put_exact :
    (addr : String) (c : ℕ) (dialled : Option ℕ) (p : ConnPool) (pool : NodePool)
    → Inv p
    → p.pools addr ≡ some pool
    → (put addr (some c) p ≡ (
        if ltb (length pool.conns) p.max_size
        then record p {
          pools =
              insert addr
                (record pool { conns = pool.conns ++ c ∷ []; active = pool.active + 1 })
                p.pools;
        }
        else record p { closed = c ∷ p.closed }))
      × ((get dialled addr p).1 ≡ elim pool.conns [ [] ↦ dialled | oldest ∷ rest ↦ some oldest ])
unfolding put get get_pool put_conn send_conn take_conn
put_exact addr c dialled p pool v e = (ground (arith, v.counts addr pool e), ground arith)
