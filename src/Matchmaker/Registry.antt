-- ===== src/Matchmaker/Registry.antt =====
-- matchmaker/service.go and matchmaker/redis_client.go: nodes register, report and leave, and
-- Redis keeps them. Redis is a store with the commands that the code calls; `fails` says which
-- commands of a call fail, which are taken to change nothing. Scores are a type, with 100.0. Times
-- are in nanoseconds in the program, and in seconds in Redis.
mod Life
mod Leaving
mod Examples
use pmi.Base.{
  text_append, ℕ, ◌+◌, ◌-◌, ◌*◌, ◌/◌, ◌≡◌, ◌≢◌, String, Bool, true, false, ◌&&◌, ◌||◌, Option, none,
  some, List, [], ◌∷◌, ltb, if◌then◌else◌, ite, text_discrete, ap,
}
use mathlib.Core.List.{Memᴰ}
use pmi.Base.Result.{Result, ok, err}

-- The fields of the hash of a node that the code writes; a hash with none does not exist.
pub record MetaFields : Type 0 where
  pub isp : Option String
  pub battery : Option ℕ
  pub os : Option String
  pub city : Option String
  pub country : Option String
  pub last_seen : Option ℕ
  pub cpu_usage : Option String
  pub is_charging : Option Bool

abbrev pub no_fields : MetaFields
no_fields = record {
  isp = none;
  battery = none;
  os = none;
  city = none;
  country = none;
  last_seen = none;
  cpu_usage = none;
  is_charging = none;
}

abbrev pub or_old {ℓ} : {A : Type ℓ} → Option A → Option A → Option A
or_old none old = old
or_old (some a) old = some a

-- What `HSET` leaves of a hash.
abbrev pub merge : MetaFields → MetaFields → MetaFields
merge f old = record {
  isp = or_old f.isp old.isp;
  battery = or_old f.battery old.battery;
  os = or_old f.os old.os;
  city = or_old f.city old.city;
  country = or_old f.country old.country;
  last_seen = or_old f.last_seen old.last_seen;
  cpu_usage = or_old f.cpu_usage old.cpu_usage;
  is_charging = or_old f.is_charging old.is_charging;
}

-- Redis, as its documentation has it: `HSET` sets the fields given, `ZADD` sets the member's
-- score in the sorted set, `DEL` removes the keys named, and each leaves what has another key or
-- kind as it is.
pub record NodeRedis {ℓ} (Score : Type 0) (S : Type ℓ) : Type ℓ where
  pub hset : String → MetaFields → S → S
  pub hget_all : String → S → MetaFields
  pub zadd : String → Score → String → S → S
  pub zscore : String → String → S → Option Score
  pub rpush : String → String → S → S
  pub keys : String → S → List String
  pub del : List String → S → S
  pub hset_same :
      (k : String) (f : MetaFields) (s : S) → hget_all k (hset k f s) ≡ merge f (hget_all k s)
  pub hset_zscore :
      (k j m : String) (f : MetaFields) (s : S) → zscore j m (hset k f s) ≡ zscore j m s
  pub zadd_zscore :
      (k j m : String) (score : Score) (s : S)
      → zscore j m (zadd k score m s) ≡ ite (text_discrete k j) (some score) (zscore j m s)
  pub zadd_hget :
      (k j m : String) (score : Score) (s : S) → hget_all j (zadd k score m s) ≡ hget_all j s
  pub rpush_hget : (k j v : String) (s : S) → hget_all j (rpush k v s) ≡ hget_all j s
  pub rpush_zscore : (k j m v : String) (s : S) → zscore j m (rpush k v s) ≡ zscore j m s
  pub del_hget :
      (k : String) (ks : List String) (s : S) → Memᴰ k ks → hget_all k (del ks s) ≡ no_fields
  pub del_zscore :
      (j m : String) (ks : List String) (s : S) → ¬ Memᴰ j ks → zscore j m (del ks s) ≡ zscore j m s

pub record Node (Score : Type 0) : Type 0 where
  pub id : String
  pub country : String
  pub city : String
  pub isp : String
  pub os : String
  pub battery : ℕ
  pub last_seen : ℕ
  pub reputation : Score

pub record NodeMeta : Type 0 where
  pub node_id : String
  pub isp : String
  pub battery : ℕ
  pub os : String
  pub last_seen : ℕ

pub record NodeRegistrationRequest : Type 0 where
  pub node_id : String
  pub country : String
  pub city : String
  pub isp : String
  pub ip : String
  pub os : String
  pub referral_code : String

pub record NodeHeartbeatRequest : Type 0 where
  pub node_id : String
  pub battery : ℕ
  pub cpu_usage : String
  pub is_charging : Bool

abbrev second : ℕ
second = 1000000000

pub country_key : String → String
country_key country = text_append "nodes:" country

pub city_key : String → String → String
city_key country city = text_append "nodes:" (text_append country (text_append ":" city))

pub meta_key : String → String
meta_key node_id = text_append "node_meta:" node_id

absent {ℓ} : {A : Type ℓ} → Option A → Bool
absent none = true
absent (some a) = false

-- `len(data) == 0`
is_missing : MetaFields → Bool
unfolding absent
is_missing f =
    absent f.isp
    && absent f.battery
    && absent f.os
    && absent f.city
    && absent f.country
    && absent f.last_seen
    && absent f.cpu_usage
    && absent f.is_charging

or_else {ℓ} : {A : Type ℓ} → A → Option A → A
or_else a none = a
or_else a (some b) = b

-- No command fails.
abbrev pub never : ℕ → Bool
never i = false

module _ {ℓ} {Score : Type 0} {S : Type ℓ} (redis : NodeRedis Score S) (full : Score) where
  node_fields : Node Score → MetaFields
  node_fields node = record {
    isp = some node.isp;
    battery = some node.battery;
    os = some node.os;
    city = some node.city;
    country = some node.country;
    last_seen = some (node.last_seen / second);
    cpu_usage = none;
    is_charging = none;
  }

  -- Each call has the errors of its commands: `fails i` says whether its i-th command fails, which
  -- is taken to change nothing.
  listed : (ℕ → Bool) → Node Score → S → S × Option String
  unfolding country_key city_key
  listed fails node s =
      let in_country = redis.zadd (country_key node.country) node.reputation node.id s in
      if fails 0
      then (s, some "failed to add node to sorted set")
      else ite (text_discrete node.city "") (in_country, none)
          (if fails 1 then (in_country, some "failed to add node to city sorted set") else (
            redis.zadd (city_key node.country node.city) node.reputation node.id in_country,
            none,
          ))

  -- From the `HSet` of `AddNode` on.
  stored : (ℕ → Bool) → Node Score → S × Option String → S × Option String
  unfolding node_fields meta_key
  stored fails node (s, some e) = (s, some e)
  stored fails node (s, none) =
      if fails 2
      then (s, some "redis")
      else (redis.hset (meta_key node.id) (node_fields node) s, none)

  pub add_node : (ℕ → Bool) → Node Score → S → S × Option String
  unfolding listed stored
  add_node fails node s = stored fails node (listed fails node s)

  pub get_node_meta : Bool → ℕ → String → S → Result NodeMeta
  unfolding is_missing or_else meta_key
  get_node_meta fails now node_id s =
      let f = redis.hget_all (meta_key node_id) s in
      if fails
      then err "redis"
      else if is_missing f
      then err "node meta not found"
      else ok (record {
        node_id = node_id;
        isp = or_else "" f.isp;
        battery = or_else 0 f.battery;
        os = or_else "" f.os;
        last_seen = elim f.last_seen [ none ↦ now | some t ↦ t * second ];
      })

  pub get_node_reputation : Bool → String → String → S → Result Score
  unfolding country_key or_else
  get_node_reputation fails node_id country s =
      if fails
      then err "redis"
      else ok (or_else full (redis.zscore (country_key country) node_id s))

  -- `EXISTS` is a hash with a field.
  pub update_node_status : (ℕ → Bool) → ℕ → String → ℕ → String → Bool → S → S × Option String
  unfolding is_missing meta_key
  update_node_status fails now node_id battery cpu_usage is_charging s =
      if fails 0 || is_missing (redis.hget_all (meta_key node_id) s)
      then (s, some "node not found")
      else if fails 1
      then (s, some "redis")
      else (
        redis.hset (meta_key node_id)
            (record no_fields {
              last_seen = some (now / second);
              battery = some battery;
              cpu_usage = some cpu_usage;
              is_charging = some is_charging;
            })
            s,
        none,
      )

  -- `DEL` is not sent without a key.
  pub delete_keys : Bool → List String → S → S × Option String
  delete_keys fails [] s = (s, none)
  delete_keys fails (k ∷ ks) s = if fails then (s, some "redis") else (redis.del (k ∷ ks) s, none)

  pub remove_node : (ℕ → Bool) → String → S → S × Option String
  unfolding delete_keys
  remove_node fails node_id s =
      if fails 0
      then (s, some "redis")
      else delete_keys (fails 1) (redis.keys (text_append "*" (text_append node_id "*")) s) s

  record_referral : String → String → S → S
  record_referral referrer_code node_id s =
      redis.rpush (text_append "referrals:" referrer_code) node_id s

  new_node : ℕ → String → NodeRegistrationRequest → Node Score
  new_node now country req = record {
    id = req.node_id;
    country = country;
    city = req.city;
    isp = req.isp;
    os = req.os;
    battery = 0;
    last_seen = now;
    reputation = full;
  }

  -- The error of a referral is only logged.
  referred : Bool → NodeRegistrationRequest → S → S
  unfolding record_referral
  referred fails req s =
      ite (text_discrete req.referral_code "") s
        (if fails then s else record_referral req.referral_code req.node_id s)

  -- `geoip` is `geoipFunc`, none where it is nil.
  pub country_or_detected : Option (String → String) → NodeRegistrationRequest → String
  country_or_detected none req = req.country
  country_or_detected (some geoip) req =
      ite (text_discrete req.country "") (geoip req.ip) req.country

  -- What `RegisterNode` does with the answer of `AddNode`.
  accepted : (ℕ → Bool) → NodeRegistrationRequest → S × Option String → S × Option String
  unfolding referred
  accepted fails req (s, some e) = (s, some "failed to register node")
  accepted fails req (s, none) = (referred (fails 3) req s, none)

  -- The error, none for nil.
  pub register_node :
      (ℕ → Bool) → Option (String → String) → ℕ → NodeRegistrationRequest → S → S × Option String
  unfolding country_or_detected new_node add_node accepted
  register_node fails geoip now req s =
      let country = country_or_detected geoip req in
      ite (text_discrete req.node_id "") (s, some "node_id is required")
        (ite (text_discrete req.ip "") (s, some "ip is required")
          (ite (text_discrete country "") (s, some "country is required")
            (accepted fails req (add_node fails (new_node now country req) s))))

  pub heartbeat : (ℕ → Bool) → ℕ → NodeHeartbeatRequest → S → S × Option String
  unfolding update_node_status
  heartbeat fails now req s =
      ite (text_discrete req.node_id "") (s, some "node_id is required")
        (update_node_status fails now req.node_id req.battery req.cpu_usage req.is_charging s)

  pub deregister_node : (ℕ → Bool) → String → S → S × Option String
  unfolding remove_node
  deregister_node fails node_id s =
      ite (text_discrete node_id "") (s, some "node_id is required") (remove_node fails node_id s)

  pub ping_node : Bool → ℕ → String → S → Bool
  unfolding get_node_meta
  ping_node fails now node_id s = elim (get_node_meta fails now node_id s) [
    | err e ↦ false
    | ok meta ↦ ltb (now - meta.last_seen) (300 * second)
  ]
