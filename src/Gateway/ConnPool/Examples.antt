-- ===== src/Gateway/ConnPool/Examples.antt =====
-- gateway/connpool.go: runs of the pool.
use pmi.Base.{◌≤◌, ◌<◌, ◌≡◌, refl, some, List, [], ◌∷◌, arith, text_discrete, empty, insert}
use pmi.Gateway.ConnPool.{
  NodePool, ConnPool, new_conn_pool, get_pool, take_conn, get, put_conn, send_conn, put,
}
use pmi.Gateway.ConnPool.Sequential.{Inv, Call, get_call, put_call, step, run}
use pmi.Gateway.ConnPool.Interleaved.{Shared, start, next, reserve, reserved_put_has_room}

abbrev calls : List Call
calls =
    get_call (some 1) "n"
    ∷ put_call "n" (some 1)
    ∷ put_call "n" (some 2)
    ∷ put_call "n" (some 3)
    ∷ []

abbrev full : NodePool
full = record { conns = 1 ∷ 2 ∷ []; addr = "n"; active = 2 }

calls_fill : (run calls (new_conn_pool 2)).pools "n" ≡ some full
unfolding run step get put get_pool take_conn put_conn send_conn new_conn_pool text_discrete
calls_fill = refl

third_is_closed : (run calls (new_conn_pool 2)).closed ≡ 3 ∷ []
unfolding run step get put get_pool take_conn put_conn send_conn new_conn_pool text_discrete
third_is_closed = refl

abbrev one_idle : NodePool
one_idle = record { conns = 1 ∷ []; addr = "n"; active = 1 }

abbrev pools : ConnPool
pools = record { pools = insert "n" one_idle empty; max_size = 2; closed = [] }

pools-Inv : Inv pools
pools-Inv = record { counts = λ a pool h. ground arith }

abbrev half_put : Shared
half_put = record { active = 1; queued = 0; reserved = 1; taken = 0 }

reserved_put_has_room_example : (half_put.active ≤ 1) × (half_put.queued < 1)
reserved_put_has_room_example =
    reserved_put_has_room (next start (reserve _ (omega arith))) (omega arith)
