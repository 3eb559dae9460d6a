-- ===== src/Gateway/ConnPool.antt =====
-- gateway/connpool.go: idle connections by address. A connection is a number; `closed` lists the
-- connections on which `Close` was called. A channel is the list of what it holds.
mod Sequential
mod Interleaved
mod Examples
use pmi.Base.{
  [], ℕ, ◌+◌, ◌-◌, String, Option, none, some, List, ◌∷◌, ◌++◌, ltb, leb, if◌then◌else◌, length,
  StringMap, empty, insert,
}

pub record NodePool : Type 0 where
  pub conns : List ℕ
  pub addr : String
  pub active : ℕ

pub record ConnPool : Type 0 where
  pub pools : StringMap NodePool
  pub max_size : ℕ
  pub closed : List ℕ

pub new_conn_pool : ℕ → ConnPool
new_conn_pool max_per_node = record { pools = empty; max_size = max_per_node; closed = [] }

pub get_pool : String → ConnPool → ConnPool × NodePool
get_pool addr p = elim (p.pools addr) [
  | some pool ↦ (p, pool)
  | none ↦
      let pool : NodePool = record { conns = []; addr = addr; active = 0 } in
      (record p { pools = insert addr pool p.pools }, pool)
]

take_conn : Option ℕ → String → ConnPool → NodePool → ConnPool × Option ℕ
take_conn dialled addr p pool = elim pool.conns [
  | [] ↦ (p, dialled)
  | c ∷ rest ↦ (
    record p {
      pools = insert addr (record pool { conns = rest; active = pool.active - 1 }) p.pools;
    },
    some c,
  )
]

-- `dialled` is what `net.DialTimeout` would return, none for an error. `active--` runs only with a
-- connection taken from the channel, which `active` counts.
unfoldable pub get : Option ℕ → String → ConnPool → ConnPool × Option ℕ
unfolding get_pool take_conn
get dialled addr p = let (p', pool) = get_pool addr p in take_conn dialled addr p' pool

-- The second half of `Put`: the send, or its default.
send_conn : ℕ → String → ConnPool → NodePool → ConnPool
send_conn c addr p pool =
    if ltb (length pool.conns) p.max_size
    then record p { pools = insert addr (record pool { conns = pool.conns ++ c ∷ [] }) p.pools }
    else record p {
      pools = insert addr (record pool { active = pool.active - 1 }) p.pools;
      closed = c ∷ p.closed;
    }

put_conn : ℕ → String → ConnPool → NodePool → ConnPool
put_conn c addr p pool =
    if leb p.max_size pool.active
    then record p { closed = c ∷ p.closed }
    else send_conn c addr p (record pool { active = pool.active + 1 })

unfoldable pub put : String → Option ℕ → ConnPool → ConnPool
unfolding get_pool put_conn send_conn
put addr conn p = elim conn [
  | none ↦ p
  | some c ↦ let (p', pool) = get_pool addr p in put_conn c addr p' pool
]

-- `Close`, given the addresses that the pool's map holds
close_pools : List String → StringMap NodePool → List ℕ → List ℕ
close_pools [] pools closed = closed
close_pools (addr ∷ rest) pools closed = elim (pools addr) [
  | none ↦ close_pools rest pools closed
  | some pool ↦ close_pools rest pools (pool.conns ++ closed)
]

pub close : List String → ConnPool → ConnPool
close addrs p = record p { pools = empty; closed = close_pools addrs p.pools p.closed }

pub stats : String → ConnPool → Option ℕ
stats addr p = elim (p.pools addr) [ none ↦ none | some pool ↦ some pool.active ]
