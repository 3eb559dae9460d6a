-- ===== src/Matchmaker/Registry/Examples.antt =====
-- matchmaker/service.go: a Redis of functions, and one node in Lagos.
use pmi.Base.{
  ℕ, ◌+◌, ◌*◌, ◌-◌, ◌<◌, String, ◌≡◌, ◌≢◌, refl, sym, ap, ◌∙◌, Bool, true, false, Option, none,
  some, List, [], ◌∷◌, arith, ite, if_pos, if_neg, text_discrete, text_append, inl, inr,
}
use mathlib.Core.List.{Memᴰ}
use mathlib.Core.List.Memᴰ
use pmi.Base.Result.{ok, err}
use pmi.Matchmaker.Registry.{
  MetaFields, NodeRedis, NodeMeta, NodeRegistrationRequest, NodeHeartbeatRequest, second,
  country_key, meta_key, get_node_meta, get_node_reputation, never, register_node, heartbeat,
  deregister_node, ping_node, merge, no_fields,
}
use pmi.Matchmaker.Registry.Life.{registered}
use pmi.Matchmaker.Registry.Leaving.{heartbeat_known, left_node_stays_listed}

abbrev Memory : Type 0
Memory = (String → MetaFields) × (String → String → Option ℕ)

-- What is left under a key when some keys are deleted.
left_of {ℓ} : {A : Type ℓ} → A → (String → A) → List String → String → A
left_of gone old [] k = old k
left_of gone old (x ∷ ks) k = ite (text_discrete x k) gone (left_of gone old ks k)

left_of_found {ℓ} :
    {A : Type ℓ} (gone : A) (old : String → A) (ks : List String) (k : String)
    → Memᴰ k ks
    → left_of gone old ks k ≡ gone
unfolding left_of
left_of_found gone old [] k h = elim h [ ]
left_of_found gone old (x ∷ ks) k h =
    let rest = left_of_found gone old ks k in
    elim (text_discrete x k) as (λ d. ite d gone (left_of gone old ks k) ≡ gone) [
      | yes e ↦ refl
      | no ne ↦ elim (Memᴰ.cases_cons h) [ inl e ↦ absurd (ne (sym e)) | inr t ↦ rest t ]
    ]

left_of_other {ℓ} :
    {A : Type ℓ} (gone : A) (old : String → A) (ks : List String) (k : String)
    → ¬ Memᴰ k ks
    → left_of gone old ks k ≡ old k
unfolding left_of
left_of_other gone old [] k h = refl
left_of_other gone old (x ∷ ks) k h =
    let rest = left_of_other gone old ks k (λ t. h (Memᴰ.tail t)) in
    if_neg (text_discrete x k) (λ e. h (Memᴰ.head (sym e))) _ _ ∙ rest

abbrev store : NodeRedis ℕ Memory
store = record {
  hset = λ k f s. (λ j. ite (text_discrete k j) (merge f (s.0 j)) (s.0 j), s.1);
  hget_all = λ k s. s.0 k;
  zadd = λ k score m s. (
    s.0,
    λ j n. ite (text_discrete k j) (ite (text_discrete m n) (some score) (s.1 j n)) (s.1 j n),
  );
  zscore = λ k m s. s.1 k m;
  rpush = λ k v s. s;
  keys = λ p s. "node_meta:n1" ∷ [];
  del = λ ks s. (left_of no_fields s.0 ks, left_of (λ n. none) s.1 ks);
  hset_same = λ k f s. if_pos (text_discrete k k) refl _ _;
  hset_zscore = λ k j m f s. refl;
  zadd_zscore = λ k j m score s.
      ap (λ (o : Option ℕ). ite (text_discrete k j) o (s.1 j m))
        (if_pos (text_discrete m m) refl _ _);
  zadd_hget = λ k j m score s. refl;
  rpush_hget = λ k j v s. refl;
  rpush_zscore = λ k j m v s. refl;
  del_hget = λ k ks s h. left_of_found no_fields s.0 ks k h;
  del_zscore =
      λ j m ks s h. ap (λ (f : String → Option ℕ). f m) (left_of_other (λ n. none) s.1 ks j h);
}

abbrev empty : Memory
empty = (λ k. no_fields, λ k n. none)

abbrev joining : NodeRegistrationRequest
joining = record {
  node_id = "n1";
  country = "NG";
  city = "Lagos";
  isp = "MTN";
  ip = "10.0.0.1";
  os = "linux";
  referral_code = "";
}

abbrev beat : NodeHeartbeatRequest
beat = record { node_id = "n1"; battery = 80; cpu_usage = "0.5"; is_charging = true }

abbrev joined : Memory
joined = (register_node store 100 never none (5 * second) joining empty).0

n1_named : ◌≢◌ {A = String} "n1" ""
unfolding pmi.Base.text_discrete
n1_named e = let bad : ◌≡◌ {A = ℕ} 0 1 = ap (λ s. ite (text_discrete s "n1") 0 1) e in omega arith

ip_given : ◌≢◌ {A = String} "10.0.0.1" ""
unfolding pmi.Base.text_discrete
ip_given e =
    let bad : ◌≡◌ {A = ℕ} 0 1 = ap (λ s. ite (text_discrete s "10.0.0.1") 0 1) e in omega arith

country_given : ◌≢◌ {A = String} "NG" ""
unfolding pmi.Base.text_discrete
country_given e =
    let bad : ◌≡◌ {A = ℕ} 0 1 = ap (λ s. ite (text_discrete s "NG") 0 1) e in omega arith

registered_example :
    let (s', error) = register_node store 100 never none (5 * second) joining empty in
    (error ≡ none)
    × (get_node_meta store 100 false 0 "n1" s'
        ≡ ok (record {
          node_id = "n1";
          isp = "MTN";
          battery = 0;
          os = "linux";
          last_seen = 5 * second;
        }))
    × (get_node_reputation store 100 false "n1" "NG" s' ≡ ok 100)
unfolding pmi.Matchmaker.Registry.country_or_detected
registered_example =
    registered store 100 none (5 * second) 0 joining empty n1_named ip_given country_given

abbrev meta_joined : NodeMeta
meta_joined = record {
  node_id = "n1";
  isp = "MTN";
  battery = 0;
  os = "linux";
  last_seen = 5 * second;
}

joined_known : get_node_meta store 100 false 0 "n1" joined ≡ ok meta_joined
joined_known = registered_example.1

heartbeat_known_example :
    let (s', error) = heartbeat store 100 never (60 * second) beat joined in
    (error ≡ none)
    × (get_node_meta store 100 false (90 * second) "n1" s'
        ≡ ok (record meta_joined { battery = 80; last_seen = 60 * second }))
    × (ping_node store 100 false (90 * second) "n1" s' ≡ true)
heartbeat_known_example =
    heartbeat_known store 100 0 (60 * second) (90 * second) beat meta_joined joined n1_named
      joined_known (omega arith)

meta_found : Memᴰ (meta_key "n1") ("node_meta:n1" ∷ [])
unfolding pmi.Matchmaker.Registry.meta_key
meta_found = Memᴰ.head refl

list_not_found : ¬ Memᴰ (country_key "NG") ("node_meta:n1" ∷ [])
unfolding pmi.Matchmaker.Registry.country_key pmi.Base.text_discrete
list_not_found h = elim (Memᴰ.cases_cons h) [
  | inl e ↦
      let bad : ◌≡◌ {A = ℕ} 0 1 = ap (λ s. ite (text_discrete s "nodes:NG") 1 0) (sym e) in
      omega arith
  | inr t ↦ elim t [ ]
]

left_node_stays_listed_example :
    let (s', error) = deregister_node store 100 never "n1" joined in
    (error ≡ none)
    × (get_node_meta store 100 false (90 * second) "n1" s' ≡ err "node meta not found")
    × (heartbeat store 100 never (90 * second) beat s' ≡ (s', some "node not found"))
    × (store.zscore (country_key "NG") "n1" s' ≡ store.zscore (country_key "NG") "n1" joined)
left_node_stays_listed_example =
    left_node_stays_listed store 100 (90 * second) beat "NG" joined n1_named meta_found
      list_not_found
