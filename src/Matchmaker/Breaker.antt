-- ===== src/Matchmaker/Breaker.antt =====
-- matchmaker/service.go and internal/models/models.go: a circuit breaker for each node.
mod History
mod Examples
use pmi.Base.{
  [], ℕ, ◌+◌, ◌-◌, ◌*◌, String, Bool, true, false, Option, none, some, List, ◌∷◌, ltb, leb,
  if◌then◌else◌, StringMap, empty, insert,
}

-- The texts "closed" and "open" of the field `State`; the code uses no other.
pub data BreakerState : Type 0 where
  closed open_state : BreakerState

pub record CircuitBreaker : Type 0 where
  pub failure_count : ℕ
  pub threshold : ℕ
  pub state : BreakerState

-- The part of `Matchmaker` that its mutex guards.
pub record Breakers : Type 0 where
  pub circuit_breakers : StringMap CircuitBreaker
  pub threshold : ℕ

unfoldable pub new_breakers : ℕ → Breakers
new_breakers threshold = record { circuit_breakers = empty; threshold = threshold }

is_closed : BreakerState → Bool
is_closed closed = true
is_closed open_state = false

unfoldable pub is_node_healthy : String → Breakers → Bool
unfolding is_closed
is_node_healthy node_id m = elim (m.circuit_breakers node_id) [
  | none ↦ true
  | some cb ↦ is_closed cb.state
]

breaker_or_new : ℕ → Option CircuitBreaker → CircuitBreaker
breaker_or_new threshold none = record { failure_count = 0; threshold = threshold; state = closed }
breaker_or_new threshold (some cb) = cb

trip : CircuitBreaker → CircuitBreaker
trip cb =
    let counted : CircuitBreaker = record cb { failure_count = cb.failure_count + 1 } in
    if leb cb.threshold (cb.failure_count + 1)
    then record counted { state = open_state }
    else counted

unfoldable pub record_failure : String → Breakers → Breakers
unfolding breaker_or_new trip
record_failure node_id m = record m {
  circuit_breakers =
      insert node_id (trip (breaker_or_new m.threshold (m.circuit_breakers node_id)))
        m.circuit_breakers;
}

pub record_success : String → Breakers → Breakers
record_success node_id m = elim (m.circuit_breakers node_id) [
  | none ↦ m
  | some cb ↦ record m {
    circuit_breakers =
        insert node_id (record cb { failure_count = 0; state = closed }) m.circuit_breakers;
  }
]

pub reset_circuit_breaker : String → Breakers → Breakers
reset_circuit_breaker node_id m = elim (m.circuit_breakers node_id) [
  | none ↦ m
  | some cb ↦ record m {
    circuit_breakers =
        insert node_id (record cb { failure_count = 0; state = closed }) m.circuit_breakers;
  }
]

-- `checkNodeHealth`, from the nodes that the countries' queries return and the result of `pingNode`
check_node_health : (String → Bool) → List String → Breakers → Breakers
check_node_health ping [] m = m
check_node_health ping (node_id ∷ nodes) m =
    check_node_health ping nodes (if ping node_id then m else record_failure node_id m)

-- `pingNode`: the node's metadata are found, and it was seen in the last five minutes.
ping_node : ℕ → (String → Option ℕ) → String → Bool
ping_node now last_seen node_id = elim (last_seen node_id) [
  | none ↦ false
  | some t ↦ ltb (now - t) (300 * 1_000_000_000)
]
