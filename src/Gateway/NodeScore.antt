-- ===== src/Gateway/NodeScore.antt =====
-- gateway/batch.go, `NodeHealthScore` and `KeyPriority`: scores of nodes over any type of floats,
-- and the priorities of keys. The order in which a `range` over the map meets its keys is an
-- argument.
mod Ranking
use pmi.Base.{
  ℕ, ◌+◌, ◌*◌, String, Bool, true, false, Option, none, some, List, [], ◌∷◌, map, take, leb,
  text_append, if◌then◌else◌, ite, text_discrete, StringMap, empty, insert,
}
use pmi.Base.Floats.{FloatOps}
use pmi.Base.Redis
use pmi.Base.Redis.{Outbox, send}
use pmi.Base.Sort.{exchange_sort}

pub record HealthWeights {ℓ} (F : Type ℓ) : Type ℓ where
  pub latency_weight : F
  pub load_weight : F
  pub success_rate_weight : F
  pub reputation_weight : F
  pub uptime_weight : F

pub record HealthScore {ℓ} (F : Type ℓ) : Type ℓ where
  pub node_id : String
  pub total_score : F
  pub latency_score : F
  pub load_score : F
  pub success_score : F
  pub reputation : F
  pub uptime_score : F
  pub last_update : ℕ

pub record NodeHealthScore {ℓ} (F : Type ℓ) : Type ℓ where
  pub scores : StringMap (HealthScore F)
  pub weights : HealthWeights F

-- The loop over the map, which meets `order`.
pub get_all_scores {ℓ} : {F : Type ℓ} → List String → NodeHealthScore F → List (HealthScore F)
get_all_scores [] nhs = []
get_all_scores (node_id ∷ later) nhs =
    let rest = get_all_scores later nhs in
    elim (nhs.scores node_id) [ none ↦ rest | some score ↦ score ∷ rest ]

get_score {ℓ} : {F : Type ℓ} → String → NodeHealthScore F → Option (HealthScore F)
get_score node_id nhs = nhs.scores node_id

module _ {ℓ} {F : Type ℓ} (ops : FloatOps F) where
  new_node_health_score : HealthWeights F → NodeHealthScore F
  new_node_health_score weights = record {
    scores = empty;
    weights =
        if ops.same weights.latency_weight (ops.of_nat 0)
        then (record {
          latency_weight = ops.of_nat 30;
          load_weight = ops.of_nat 20;
          success_rate_weight = ops.of_nat 30;
          reputation_weight = ops.of_nat 15;
          uptime_weight = ops.of_nat 5;
        })
        else weights;
  }

  calculate_latency_score : ℕ → F
  calculate_latency_score latency_ms =
      let hundred = ops.of_nat 100 in
      if leb latency_ms 50
      then hundred
      else if leb 500 latency_ms
      then ops.of_nat 0
      else ops.sub hundred (
          ops.div (ops.mul (ops.sub (ops.of_nat latency_ms) (ops.of_nat 50)) hundred)
            (ops.of_nat 450))

  calculate_load_score : ℕ → F
  calculate_load_score load =
      let hundred = ops.of_nat 100 in
      if leb load 10
      then hundred
      else if leb 100 load
      then ops.of_nat 0
      else ops.sub hundred (ops.div (ops.mul (ops.of_nat load) hundred) (ops.of_nat 90))

  calculate_uptime_score : F → F
  calculate_uptime_score uptime_hours =
      if ops.at_most (ops.of_nat 720) uptime_hours
      then ops.of_nat 100
      else ops.mul (ops.div uptime_hours (ops.of_nat 720)) (ops.of_nat 100)

  -- A score in the share of its weight.
  weighted : F → F → F
  weighted score weight = ops.div (ops.mul score weight) (ops.of_nat 100)

  score_of : HealthWeights F → ℕ → String → ℕ → ℕ → F → F → F → HealthScore F
  unfolding calculate_latency_score calculate_load_score calculate_uptime_score weighted
  score_of w now node_id latency_ms load success_rate reputation uptime_hours =
      let latency = calculate_latency_score latency_ms in
      let by_load = calculate_load_score load in
      let success = ops.mul success_rate (ops.of_nat 100) in
      let uptime = calculate_uptime_score uptime_hours in
      record {
        node_id = node_id;
        total_score =
            ops.add
              (ops.add
                (ops.add
                  (ops.add (weighted latency w.latency_weight) (weighted by_load w.load_weight))
                  (weighted success w.success_rate_weight))
                (weighted reputation w.reputation_weight))
              (weighted uptime w.uptime_weight);
        latency_score = latency;
        load_score = by_load;
        success_score = success;
        reputation = reputation;
        uptime_score = uptime;
        last_update = now;
      }

  calculate_score : ℕ → String → ℕ → ℕ → F → F → F → NodeHealthScore F → NodeHealthScore F × F
  unfolding score_of
  calculate_score now node_id latency_ms load success_rate reputation uptime_hours nhs =
      let score =
        score_of nhs.weights now node_id latency_ms load success_rate reputation uptime_hours in
      (record nhs { scores = insert node_id score nhs.scores }, score.total_score)

  higher : HealthScore F → HealthScore F → Bool
  higher p q = ops.less q.total_score p.total_score

  pub get_top_nodes : List String → ℕ → NodeHealthScore F → List String
  unfolding higher get_all_scores
  get_top_nodes order count nhs =
      map (λ (s : HealthScore F). s.node_id)
        (take count (exchange_sort higher (get_all_scores order nhs)))

-- `KeyPriority`.
pub record KeyPriority : Type 0 where
  pub priorities : StringMap ℕ
  pub redis : Outbox

new_key_priority : Outbox → KeyPriority
new_key_priority redis_client = record { priorities = empty; redis = redis_client }

get_priority : String → KeyPriority → ℕ
get_priority api_key kp = elim (kp.priorities api_key) [ none ↦ 0 | some priority ↦ priority ]

set_priority : String → ℕ → KeyPriority → KeyPriority
set_priority api_key priority kp = record kp {
  priorities = insert api_key priority kp.priorities;
  redis =
      send (Redis.set (text_append "key:priority:" api_key) (Redis.number priority) 0 ∷ [])
        kp.redis;
}

get_weighted_priority {ℓ} : {F : Type ℓ} → FloatOps F → String → F → KeyPriority → F
unfolding get_priority
get_weighted_priority ops api_key base_weight kp =
    ops.mul base_weight (ops.of_nat (get_priority api_key kp + 1))
