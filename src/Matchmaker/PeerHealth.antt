-- ===== src/Matchmaker/PeerHealth.antt =====
-- matchmaker/peer_health.go, `PeerHealthScore`: a score for each node, computed from what was
-- measured. The floats are a type with the operations that the code uses; the texts that Redis is
-- sent are arguments, as are its answer to `LRange` and the order in which a `range` over the map
-- meets its keys.
mod Ranking
mod Examples
use pmi.Base.{
  text_append, ℕ, String, Bool, true, false, Option, none, some, List, [], ◌∷◌, ◌++◌, ltb, leb,
  if◌then◌else◌, length, take, StringMap, empty, insert,
}
use pmi.Base.Redis
use pmi.Base.Redis.{Outbox, send}
use pmi.Base.Sort.{exchange_sort}
use pmi.Base.Floats.{FloatOps}

pub record PeerHealth {ℓ} (F : Type ℓ) : Type ℓ where
  pub node_id : String
  pub connection_score : F
  pub latency_score : F
  pub bandwidth_score : F
  pub reliability_score : F
  pub overall_score : F
  pub last_checked : ℕ

pub record PeerHealthScore {ℓ} (F : Type ℓ) : Type ℓ where
  pub scores : StringMap (PeerHealth F)
  pub redis : Outbox

new_peer_health_score {ℓ} : {F : Type ℓ} → Outbox → PeerHealthScore F
new_peer_health_score redis_client = record { scores = empty; redis = redis_client }

-- The loop over the map, which meets `order`.
pub all_peers {ℓ} : {F : Type ℓ} → List String → PeerHealthScore F → List (PeerHealth F)
all_peers [] phs = []
all_peers (node_id ∷ later) phs = elim (phs.scores node_id) [
  | none ↦ all_peers later phs
  | some peer ↦ peer ∷ all_peers later phs
]

history_key : String → String
history_key node_id = text_append "healthscore:history:" node_id

-- `point` is the text of the sample, none if it has none.
record_history {ℓ} : {F : Type ℓ} → Option String → String → PeerHealthScore F → PeerHealthScore F
record_history point node_id phs = elim point [
  | none ↦ phs
  | some sample ↦ record phs {
    redis =
        send (Redis.rpush (history_key node_id) sample ∷ Redis.ltrim (history_key node_id) 100 ∷ [])
          phs.redis;
  }
]

-- The weights 0.3, 0.25, 0.2 and 0.25 of the overall score.
pub record Weights {ℓ} (F : Type ℓ) : Type ℓ where
  pub connection : F
  pub latency : F
  pub bandwidth : F
  pub reliability : F

module _ {ℓ} {F : Type ℓ} (ops : FloatOps F) where
  calculate_latency_score : ℕ → F
  calculate_latency_score latency_ms =
      let hundred = ops.of_nat 100 in
      if leb latency_ms 30
      then hundred
      else if leb 500 latency_ms
      then ops.of_nat 0
      else ops.sub hundred (
          ops.div (ops.mul (ops.sub (ops.of_nat latency_ms) (ops.of_nat 30)) hundred)
            (ops.of_nat 470))

  calculate_bandwidth_score : F → F
  calculate_bandwidth_score mbps =
      let hundred = ops.of_nat 100 in
      if ops.at_most hundred mbps
      then hundred
      else if ops.at_most mbps (ops.of_nat 1)
      then ops.of_nat 0
      else ops.mul (ops.div mbps hundred) hundred

  -- The entry that `UpdateScore` stores.
  score_of : Weights F → ℕ → String → ℕ → F → F → PeerHealth F
  unfolding calculate_latency_score calculate_bandwidth_score
  score_of weights now node_id latency_ms bandwidth_mbps reliability =
      let latency_score = calculate_latency_score latency_ms in
      let bandwidth_score = calculate_bandwidth_score bandwidth_mbps in
      let reliability_score = ops.mul reliability (ops.of_nat 100) in
      let connection_score =
        ops.div (ops.add (ops.add latency_score bandwidth_score) reliability_score)
          (ops.of_nat 3) in
      record {
        node_id = node_id;
        connection_score = connection_score;
        latency_score = latency_score;
        bandwidth_score = bandwidth_score;
        reliability_score = reliability_score;
        overall_score =
            ops.add
              (ops.add
                (ops.add (ops.mul connection_score weights.connection)
                  (ops.mul latency_score weights.latency))
                (ops.mul bandwidth_score weights.bandwidth))
              (ops.mul reliability_score weights.reliability);
        last_checked = now;
      }

  -- `fields` are the scores as they are written to the node's hash.
  update_score :
      (PeerHealth F → List Redis.Command)
      → (PeerHealth F → Option String)
      → Weights F
      → ℕ
      → String
      → ℕ
      → F
      → F
      → PeerHealthScore F
      → PeerHealthScore F
  unfolding score_of record_history
  update_score fields point weights now node_id latency_ms bandwidth_mbps reliability phs =
      let peer = score_of weights now node_id latency_ms bandwidth_mbps reliability in
      record_history (point peer) node_id (record phs {
        scores = insert node_id peer phs.scores;
        redis = send (fields peer) phs.redis;
      })

  higher : PeerHealth F → PeerHealth F → Bool
  higher p q = ops.less q.overall_score p.overall_score

  pub get_top_peers : List String → ℕ → PeerHealthScore F → List (PeerHealth F)
  unfolding higher all_peers
  get_top_peers order count phs =
      let peers = exchange_sort higher (all_peers order phs) in
      if ltb count (length peers) then take count peers else peers
