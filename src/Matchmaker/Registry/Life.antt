-- ===== src/Matchmaker/Registry/Life.antt =====
-- matchmaker/service.go: what is known of a node after it registered, and after it reported.
use pmi.Base.{
  ℕ, ◌*◌, ◌/◌, String, false, ◌≡◌, ◌≢◌, refl, ap, ◌∙◌, Option, none, some, ite, if_pos, if_neg,
  text_discrete, text_append,
}
use pmi.Base.Result.{ok}
use pmi.Matchmaker.Registry.{
  MetaFields, NodeRedis, Node, NodeRegistrationRequest, second, country_key, city_key, meta_key,
  is_missing, or_else, node_fields, listed, add_node, get_node_meta, get_node_reputation, new_node,
  referred, record_referral, country_or_detected, never, stored, accepted, register_node, merge,
}

same_score :
    {Score : Type 0} (k j : String) (score : Score) (old : Option Score)
    → old ≡ some score
    → ite (text_discrete k j) (some score) old ≡ some score
same_score k j score old e = elim (text_discrete k j) [
  | yes same ↦ if_pos (text_discrete k j) same _ _
  | no ne ↦ if_neg (text_discrete k j) ne _ _ ∙ e
]

module _ {ℓ} {Score : Type 0} {S : Type ℓ} (redis : NodeRedis Score S) (full : Score) where
  -- What registering leaves of the lists, and of the node, where no command fails.
  listed_state : Node Score → S → S
  listed_state node s =
      let in_country = redis.zadd (country_key node.country) node.reputation node.id s in
      ite (text_discrete node.city "") in_country
        (redis.zadd (city_key node.country node.city) node.reputation node.id in_country)

  add_state : Node Score → S → S
  add_state node s =
      redis.hset (meta_key node.id) (node_fields redis full node) (listed_state node s)

  listed_lem :
      (node : Node Score) (s : S) → listed redis full never node s ≡ (listed_state node s, none)
  unfolding listed listed_state
  listed_lem node s =
      let first = redis.zadd (country_key node.country) node.reputation node.id s in
      let both = redis.zadd (city_key node.country node.city) node.reputation node.id first in
      elim (text_discrete node.city "")
        as (λ d.
          ◌≡◌ {A = S × Option String} (ite d (first, none) (both, none)) (ite d first both, none)) [
            | yes e ↦ refl
            | no ne ↦ refl
          ]

  add_node_lem :
      (node : Node Score) (s : S) → add_node redis full never node s ≡ (add_state node s, none)
  unfolding add_node stored add_state
  add_node_lem node s = ap (stored redis full never node) (listed_lem node s)

  listed_hget :
      (node : Node Score) (k : String) (s : S)
      → redis.hget_all k (listed_state node s) ≡ redis.hget_all k s
  unfolding listed_state
  listed_hget node k s =
      let ck = country_key node.country in
      let first = redis.zadd ck node.reputation node.id s in
      let gk = city_key node.country node.city in
      elim (text_discrete node.city "")
        as (λ d.
          redis.hget_all k (ite d first (redis.zadd gk node.reputation node.id first))
          ≡ redis.hget_all k s) [
            | yes e ↦ redis.zadd_hget ck k node.id node.reputation s
            | no ne ↦
                redis.zadd_hget gk k node.id node.reputation first
                ∙ redis.zadd_hget ck k node.id node.reputation s
          ]

  listed_zscore :
      (node : Node Score) (s : S)
      → redis.zscore (country_key node.country) node.id (listed_state node s) ≡ some node.reputation
  unfolding listed_state
  listed_zscore node s =
      let ck = country_key node.country in
      let first = redis.zadd ck node.reputation node.id s in
      let gk = city_key node.country node.city in
      let in_country =
        redis.zadd_zscore ck ck node.id node.reputation s ∙ if_pos (text_discrete ck ck) refl _ _ in
      elim (text_discrete node.city "")
        as (λ d.
          redis.zscore ck node.id (ite d first (redis.zadd gk node.reputation node.id first))
          ≡ some node.reputation) [
            | yes e ↦ in_country
            | no ne ↦
                redis.zadd_zscore gk ck node.id node.reputation first
                ∙ same_score gk ck _ _ in_country
          ]

  referred_hget :
      (req : NodeRegistrationRequest) (k : String) (s : S)
      → redis.hget_all k (referred redis full false req s) ≡ redis.hget_all k s
  unfolding referred record_referral
  referred_hget req k s =
      elim (text_discrete req.referral_code "")
        as (λ d.
          redis.hget_all k
            (ite d s (redis.rpush (text_append "referrals:" req.referral_code) req.node_id s))
          ≡ redis.hget_all k s) [
            | yes e ↦ refl
            | no ne ↦ redis.rpush_hget (text_append "referrals:" req.referral_code) k req.node_id s
          ]

  referred_zscore :
      (req : NodeRegistrationRequest) (k m : String) (s : S)
      → redis.zscore k m (referred redis full false req s) ≡ redis.zscore k m s
  unfolding referred record_referral
  referred_zscore req k m s =
      elim (text_discrete req.referral_code "")
        as (λ d.
          redis.zscore k m
            (ite d s (redis.rpush (text_append "referrals:" req.referral_code) req.node_id s))
          ≡ redis.zscore k m s) [
            | yes e ↦ refl
            | no ne ↦
                redis.rpush_zscore (text_append "referrals:" req.referral_code) k m req.node_id s
          ]

  add_node_hget :
      (node : Node Score) (s : S)
      → redis.hget_all (meta_key node.id) (add_state node s)
        ≡ merge (node_fields redis full node) (redis.hget_all (meta_key node.id) s)
  unfolding add_state
  add_node_hget node s =
      redis.hset_same (meta_key node.id) (node_fields redis full node) (listed_state node s)
      ∙ ap (merge (node_fields redis full node)) (listed_hget node (meta_key node.id) s)

  add_node_zscore :
      (node : Node Score) (s : S)
      → redis.zscore (country_key node.country) node.id (add_state node s) ≡ some node.reputation
  unfolding add_state
  add_node_zscore node s =
      redis.hset_zscore (meta_key node.id) (country_key node.country) node.id
        (node_fields redis full node) (listed_state node s)
      ∙ listed_zscore node s

  meta_of_fields :
      (later : ℕ) (node : Node Score) (old : MetaFields) (s : S)
      → redis.hget_all (meta_key node.id) s ≡ merge (node_fields redis full node) old
      → get_node_meta redis full false later node.id s
        ≡ ok (record {
          node_id = node.id;
          isp = node.isp;
          battery = node.battery;
          os = node.os;
          last_seen = node.last_seen / second * second;
        })
  unfolding get_node_meta node_fields is_missing or_else
  meta_of_fields later node old s e = rw (get_node_meta, e) refl

  register_node_accepts :
      (geoip : Option (String → String)) (now : ℕ) (req : NodeRegistrationRequest) (s : S)
      → req.node_id ≢ ""
      → req.ip ≢ ""
      → country_or_detected redis full geoip req ≢ ""
      → register_node redis full never geoip now req s ≡ (
        referred redis full false req
            (add_state (new_node redis full now (country_or_detected redis full geoip req) req) s),
        none,
      )
  unfolding register_node accepted
  register_node_accepts geoip now req s id ip known =
      if_neg (text_discrete req.node_id "") id _ _
      ∙ if_neg (text_discrete req.ip "") ip _ _
      ∙ if_neg (text_discrete (country_or_detected redis full geoip req) "") known _ _
      ∙ ap (accepted redis full never req)
          (add_node_lem (new_node redis full now (country_or_detected redis full geoip req) req) s)

  -- Where no command fails, a registration with an id, an address and a country, given or found
  -- from the address, succeeds; then the node's meta data are those of the request, seen now to
  -- the second, and its reputation in that country is 100.0, whatever was known of it before.
  pub registered :
      (geoip : Option (String → String)) (now later : ℕ) (req : NodeRegistrationRequest) (s : S)
      → req.node_id ≢ ""
      → req.ip ≢ ""
      → country_or_detected redis full geoip req ≢ ""
      → let (s', error) = register_node redis full never geoip now req s in
        (error ≡ none)
        × (get_node_meta redis full false later req.node_id s'
            ≡ ok (record {
              node_id = req.node_id;
              isp = req.isp;
              battery = 0;
              os = req.os;
              last_seen = now / second * second;
            }))
        × (get_node_reputation redis full false req.node_id
              (country_or_detected redis full geoip req)
              s'
            ≡ ok full)
  unfolding new_node get_node_reputation or_else
  registered geoip now later req s id ip known =
      let country = country_or_detected redis full geoip req in
      let node = new_node redis full now country req in
      let added = add_state node s in
      let accepted = register_node_accepts geoip now req s id ip known in
      let fields =
        ap (redis.hget_all (meta_key req.node_id)) (ap (λ (r : S × Option String). r.0) accepted)
        ∙ referred_hget req (meta_key req.node_id) added
        ∙ add_node_hget node s in
      let score =
        ap (redis.zscore (country_key country) req.node_id)
          (ap (λ (r : S × Option String). r.0) accepted)
        ∙ referred_zscore req (country_key country) req.node_id added
        ∙ add_node_zscore node s in
      (
        ap (λ (r : S × Option String). r.1) accepted,
        meta_of_fields later node _ _ fields,
        rw score refl,
      )
