-- ===== src/Matchmaker/Selection.antt =====
-- matchmaker/service.go, `SelectNode`: the candidates, those that may serve, and the best of these.
mod Best
mod Sound
mod Examples
use pmi.Base.{
  [], text_append, ℕ, zero, suc, ◌-◌, String, ite, Bool, false, not, ◌&&◌, Option, none, some, List,
  ◌∷◌, if◌then◌else◌, text_discrete, length, get_elem?,
}
use pmi.Base.Result.{Result, ok, err, ◌>>=◌, wrap}
use pmi.Base.Redis
use pmi.Base.Redis.{Outbox, send}
use pmi.Matchmaker.Breaker.{Breakers, is_node_healthy}

-- float64, with what `selectByLoad` computes by it.
pub record Floats : Type 1 where
  pub Float : Type 0
  pub literal : ℕ → Float
  pub neg : Float → Float
  pub add : Float → Float → Float
  pub mul : Float → Float → Float
  pub div : Float → Float → Float
  pub exp : Float → Float
  pub hours : ℕ → Float
  pub gt : Float → Float → Bool

pub record NodeMeta : Type 0 where
  pub isp : String
  pub os : String
  pub last_seen : ℕ

pub record Node : Type 0 where
  pub id : String
  pub country : String
  pub city : String
  pub isp : String
  pub os : String
  pub last_seen : ℕ

module _ (floats : Floats) where
  open floats use {Float, literal, neg, add, mul, div, exp, hours, gt}

  -- What `SelectNode` reads through `RedisClient` and `PeerHealthScore`: none is an error, or no
  -- value. `load` and `reputation` are the values used when the error is dropped.
  pub record Reads : Type 0 where
    pub nodes_by_city : String → String → Result (List String)
    pub top_nodes : String → Result (List String)
    pub is_in_cooldown : String → String → Option Bool
    pub node_meta : String → Result NodeMeta
    pub load : String → Float
    pub reputation : String → Float
    pub node_last_seen : String → Option ℕ
    pub health_score : String → Option Float

  -- The decay by the hours since a node was seen; a zero time is not decayed.
  decayed : ℕ → Option ℕ → Float → Float
  decayed now none reputation = reputation
  decayed now (some zero) reputation = reputation
  decayed now (some (suc t)) reputation =
      mul reputation (exp (div (neg (hours (now - suc t))) (literal 24)))

  health_factor : Option Float → Float
  health_factor none = literal 1
  health_factor (some overall) = div overall (literal 100)

  pub weight : Reads → ℕ → String → Float
  weight reads now id =
      div
        (mul (decayed now (reads.node_last_seen id) (reads.reputation id))
          (health_factor (reads.health_score id)))
        (add (reads.load id) (literal 1))

  -- The loop over the candidates: the best weight so far, and whose it is.
  pub best : (String → Float) → List String → Float → String → String
  best weigh [] best_weight selected = selected
  best weigh (id ∷ ids) best_weight selected =
      best weigh ids (if gt (weigh id) best_weight then weigh id else best_weight)
        (if gt (weigh id) best_weight then id else selected)

  -- `pick n` is what `rand.Int` draws below `n`, none for an error.
  pub random_select : (ℕ → Option ℕ) → List String → Result String
  random_select pick [] = err "no nodes to select from"
  random_select pick (x ∷ xs) = elim (pick (length (x ∷ xs))) [
    | none ↦ err "rand"
    | some i ↦ elim (get_elem? (x ∷ xs) i) [ none ↦ err "rand" | some id ↦ ok id ]
  ]

  pub select_by_load : (ℕ → Option ℕ) → Reads → ℕ → List String → Result String
  select_by_load pick reads now nodes =
      let selected = best (weight reads now) nodes (neg (literal 1)) "" in
      ite (text_discrete selected "") (random_select pick nodes) (ok selected)

  may_serve : Reads → Breakers → String → String → Bool
  may_serve reads m target id =
      is_node_healthy id m
      && elim (reads.is_in_cooldown target id) [ none ↦ false | some cooling ↦ not cooling ]

  pub filter_eligible_nodes : Reads → Breakers → String → List String → List String
  filter_eligible_nodes reads m target [] = []
  filter_eligible_nodes reads m target (id ∷ ids) =
      let rest = filter_eligible_nodes reads m target ids in
      if may_serve reads m target id then id ∷ rest else rest

  city_candidates : Reads → String → String → Result (List String)
  city_candidates reads country city =
      ite (text_discrete city "") (ok [])
        (wrap "failed to get city nodes" (reads.nodes_by_city country city))

  country_candidates : Reads → String → List String → Result (List String)
  country_candidates reads country [] = wrap "failed to get candidates" (reads.top_nodes country)
  country_candidates reads country (x ∷ xs) = ok (x ∷ xs)

  some_nodes : String → List String → Result (List String)
  some_nodes message [] = err message
  some_nodes message (x ∷ xs) = ok (x ∷ xs)

  -- The node's id, up to the point where its load is raised.
  pub choose : (ℕ → Option ℕ) → Reads → Breakers → ℕ → String → String → String → Result String
  choose pick reads m now country city target = do
    in_city ← city_candidates reads country city
    found ← country_candidates reads country in_city
    candidates ← some_nodes "no nodes available for country" found
    eligible ←
        some_nodes "no eligible nodes after filtering"
          (filter_eligible_nodes reads m target candidates)
    select_by_load pick reads now eligible

  describe : String → String → String → Result NodeMeta → Result Node
  describe id country city (err e) = err e
  describe id country city (ok meta) = ok (record {
    id = id;
    country = country;
    city = city;
    isp = meta.isp;
    os = meta.os;
    last_seen = meta.last_seen;
  })

  pub select_node :
      (ℕ → Option ℕ)
      → Reads
      → Breakers
      → ℕ
      → String
      → String
      → String
      → Outbox
      → Outbox × Result Node
  select_node pick reads m now country city target redis =
      elim (choose pick reads m now country city target) [
        | err e ↦ (redis, err e)
        | ok id ↦ (
          send (Redis.incr (text_append "node_load:" id) ∷ []) redis,
          describe id country city (reads.node_meta id),
        )
      ]
