-- ===== src/Matchmaker/Registry/Leaving.antt =====
-- matchmaker/service.go: what a heartbeat changes, and what a node that left leaves behind.
use pmi.Base.{
  ℕ, ◌+◌, ◌*◌, ◌-◌, ◌/◌, ◌<◌, String, ◌≡◌, ◌≢◌, refl, sym, ap, ◌∙◌, true, false, Option, none, some,
  arith, if_neg, text_discrete, lt→ltb, text_append, Bool-cases, inl, inr, List, [], ◌∷◌,
}
use mathlib.Core.List.{Memᴰ}
use pmi.Base.Result.{ok, err}
use pmi.Matchmaker.Registry.{
  MetaFields, NodeRedis, NodeMeta, NodeHeartbeatRequest, second, country_key, meta_key, is_missing,
  absent, or_else, get_node_meta, update_node_status, heartbeat, never, delete_keys, remove_node,
  deregister_node, ping_node, merge, no_fields,
}

module _ {ℓ} {Score : Type 0} {S : Type ℓ} (redis : NodeRedis Score S) (full : Score) where
  -- The meta data of a node with fields.
  meta_of : ℕ → String → MetaFields → NodeMeta
  meta_of now node_id f = record {
    node_id = node_id;
    isp = or_else "" f.isp;
    battery = or_else 0 f.battery;
    os = or_else "" f.os;
    last_seen = elim f.last_seen [ none ↦ now | some t ↦ t * second ];
  }

  get_known :
      (now : ℕ) (id : String) (f : MetaFields) (s : S)
      → redis.hget_all (meta_key id) s ≡ f
      → is_missing f ≡ false
      → get_node_meta redis full false now id s ≡ ok (meta_of now id f)
  unfolding get_node_meta meta_of
  get_known now id f s e there = rw (get_node_meta, e) (rw there refl)

  get_missing :
      (now : ℕ) (id : String) (f : MetaFields) (s : S)
      → redis.hget_all (meta_key id) s ≡ f
      → is_missing f ≡ true
      → get_node_meta redis full false now id s ≡ err "node meta not found"
  unfolding get_node_meta
  get_missing now id f s e gone = rw (get_node_meta, e) (rw gone refl)

  known_fields :
      (now : ℕ) (id : String) (meta : NodeMeta) (s : S)
      → get_node_meta redis full false now id s ≡ ok meta
      → (is_missing (redis.hget_all (meta_key id) s) ≡ false)
        × (meta_of now id (redis.hget_all (meta_key id) s) ≡ meta)
  known_fields now id meta s h = elim (Bool-cases (is_missing (redis.hget_all (meta_key id) s))) [
    | inl gone ↦ absurd (cc (sym (get_missing now id _ s refl gone) ∙ h))
    | inr there ↦ (there, cc (sym (get_known now id _ s refl there) ∙ h))
  ]

  reported_fields : ℕ → NodeHeartbeatRequest → MetaFields
  reported_fields now req = record no_fields {
    last_seen = some (now / second);
    battery = some req.battery;
    cpu_usage = some req.cpu_usage;
    is_charging = some req.is_charging;
  }

  heartbeat_writes :
      (now : ℕ) (req : NodeHeartbeatRequest) (s : S)
      → req.node_id ≢ ""
      → is_missing (redis.hget_all (meta_key req.node_id) s) ≡ false
      → heartbeat redis full never now req s
        ≡ (redis.hset (meta_key req.node_id) (reported_fields now req) s, none)
  unfolding heartbeat update_node_status reported_fields
  heartbeat_writes now req s id there = if_neg (text_discrete req.node_id "") id _ _ ∙ rw there refl

  not_missing :
      (now : ℕ) (req : NodeHeartbeatRequest) (old : MetaFields)
      → is_missing (merge (reported_fields now req) old) ≡ false
  unfolding is_missing absent reported_fields
  not_missing now req old = ground arith

  reported_meta :
      (before now later : ℕ) (req : NodeHeartbeatRequest) (old : MetaFields)
      → meta_of later req.node_id (merge (reported_fields now req) old)
        ≡ record (meta_of before req.node_id old) {
          battery = req.battery;
          last_seen = now / second * second;
        }
  unfolding meta_of reported_fields or_else
  reported_meta before now later req old = refl

  ping_seen :
      (now later : ℕ) (id : String) (meta : NodeMeta) (s : S)
      → get_node_meta redis full false later id s ≡ ok meta
      → meta.last_seen ≡ now / second * second
      → later < now + 299 * second
      → ping_node redis full false later id s ≡ true
  unfolding ping_node
  ping_seen now later id meta s e seen soon =
      rw (ping_node, e) (lt→ltb (later - meta.last_seen) (300 * second) (omega arith))

  -- Where no command fails, a heartbeat of a node that is known sets its battery and the time it
  -- was last seen, to the second, and leaves the rest of its meta data; and for 299 seconds the
  -- node counts as alive.
  pub heartbeat_known :
      (before now later : ℕ) (req : NodeHeartbeatRequest) (meta : NodeMeta) (s : S)
      → req.node_id ≢ ""
      → get_node_meta redis full false before req.node_id s ≡ ok meta
      → later < now + 299 * second
      → let (s', error) = heartbeat redis full never now req s in
        (error ≡ none)
        × (get_node_meta redis full false later req.node_id s'
            ≡ ok (record meta { battery = req.battery; last_seen = now / second * second }))
        × (ping_node redis full false later req.node_id s' ≡ true)
  heartbeat_known before now later req meta s id known soon =
      let (there, same) = known_fields before req.node_id meta s known in
      let writes = heartbeat_writes now req s id there in
      let state = ap (λ (r : S × Option String). r.0) writes in
      let old = redis.hget_all (meta_key req.node_id) s in
      let fields =
        ap (redis.hget_all (meta_key req.node_id)) state
        ∙ redis.hset_same (meta_key req.node_id) (reported_fields now req) s in
      let gets =
        get_known later req.node_id (merge (reported_fields now req) old) _ fields
          (not_missing now req old)
        ∙ ap ok (reported_meta before now later req old)
        ∙ ap
            (λ (m : NodeMeta).
              ok (record m { battery = req.battery; last_seen = now / second * second }))
            same in
      (
        ap (λ (r : S × Option String). r.1) writes,
        gets,
        ping_seen now later req.node_id _ _ gets refl soon,
      )

  -- A heartbeat of a node that is not known is refused and changes nothing.
  heartbeat_unknown :
      (now : ℕ) (req : NodeHeartbeatRequest) (s : S)
      → req.node_id ≢ ""
      → is_missing (redis.hget_all (meta_key req.node_id) s) ≡ true
      → heartbeat redis full never now req s ≡ (s, some "node not found")
  unfolding heartbeat update_node_status
  heartbeat_unknown now req s id gone = if_neg (text_discrete req.node_id "") id _ _ ∙ rw gone refl

  no_fields_missing : is_missing no_fields ≡ true
  unfolding is_missing absent
  no_fields_missing = refl

  deleted :
      (k : String) (ks : List String) (s : S)
      → Memᴰ k ks
      → delete_keys redis full false ks s ≡ (redis.del ks s, none)
  unfolding delete_keys
  deleted k [] s h = elim h [ ]
  deleted k (x ∷ ks) s h = refl

  left_lem :
      (id k : String) (s : S)
      → id ≢ ""
      → Memᴰ k (redis.keys (text_append "*" (text_append id "*")) s)
      → deregister_node redis full never id s
        ≡ (redis.del (redis.keys (text_append "*" (text_append id "*")) s) s, none)
  unfolding deregister_node remove_node
  left_lem id k s ne found = if_neg (text_discrete id "") ne _ _ ∙ (deleted k _ s found)

  -- When a node leaves, no command fails, and Redis finds the key of its meta data by its id and
  -- not that of a country's list, its meta data are gone and a heartbeat is refused, but it stays
  -- in the list of the country with the reputation it had.
  pub left_node_stays_listed :
      (now : ℕ) (req : NodeHeartbeatRequest) (country : String) (s : S)
      → req.node_id ≢ ""
      → Memᴰ (meta_key req.node_id) (redis.keys (text_append "*" (text_append req.node_id "*")) s)
      → ¬ Memᴰ (country_key country) (redis.keys (text_append "*" (text_append req.node_id "*")) s)
      → let (s', error) = deregister_node redis full never req.node_id s in
        (error ≡ none)
        × (get_node_meta redis full false now req.node_id s' ≡ err "node meta not found")
        × (heartbeat redis full never now req s' ≡ (s', some "node not found"))
        × (redis.zscore (country_key country) req.node_id s'
            ≡ redis.zscore (country_key country) req.node_id s)
  left_node_stays_listed now req country s id found not_found =
      let pattern' = text_append "*" (text_append req.node_id "*") in
      let ks = redis.keys pattern' s in
      let left = left_lem req.node_id (meta_key req.node_id) s id found in
      let state = ap (λ (r : S × Option String). r.0) left in
      let fields =
        ap (redis.hget_all (meta_key req.node_id)) state
        ∙ redis.del_hget (meta_key req.node_id) ks s found in
      let gone = ap is_missing fields ∙ no_fields_missing in
      (
        ap (λ (r : S × Option String). r.1) left,
        get_missing now req.node_id _ _ refl gone,
        heartbeat_unknown now req _ id gone,
        ap (redis.zscore (country_key country) req.node_id) state
            ∙ redis.del_zscore (country_key country) req.node_id ks s not_found,
      )
