-- ===== src/Gateway/Cache.antt =====
-- gateway/cache.go, `ResponseCache` and `NodeRetryHandler`. The entry that Redis holds for a key,
-- if it can be read and decoded, is an argument, as is the test of a key against a pattern.
mod Life
mod Retry
mod Examples
use pmi.Base.{
  [], text_append, ℕ, zero, suc, ◌+◌, ◌*◌, String, ite, Bool, true, Option, none, some, List, ◌∷◌,
  map, ltb, if◌then◌else◌, text_discrete, StringMap, empty, insert, delete,
}
use pmi.Base.Redis
use pmi.Base.Redis.{Outbox, send}

pub record CacheEntry : Type 0 where
  pub response : String
  pub content_type : String
  pub expiry : ℕ

pub record ResponseCache : Type 0 where
  pub redis : Outbox
  pub local_cache : StringMap CacheEntry
  pub ttl : ℕ

pub new_response_cache : Bool → ℕ → ResponseCache
new_response_cache connected ttl = record {
  redis = record { connected = connected; sent = [] };
  local_cache = empty;
  ttl = ttl;
}

abbrev pub Answer : Type 0
Answer = Option (String × String)

get_local : ℕ → String → ResponseCache → ResponseCache × Answer
get_local now key rc = elim (rc.local_cache key) [
  | none ↦ (rc, none)
  | some entry ↦
      if ltb now entry.expiry
      then (rc, some (entry.response, entry.content_type))
      else (record rc { local_cache = delete key rc.local_cache }, none)
]

live_remote : ℕ → Option CacheEntry → Answer
live_remote now none = none
live_remote now (some entry) =
    if ltb now entry.expiry then some (entry.response, entry.content_type) else none

pub get : Option CacheEntry → ℕ → String → ResponseCache → ResponseCache × Answer
unfolding get_local live_remote
get remote now key rc =
    let here = get_local now key rc in
    if rc.redis.connected
    then elim (live_remote now remote) [ none ↦ here | some found ↦ (rc, some found) ]
    else here

cache_key : String → String
cache_key key = text_append "cache:" key

-- `encode` is `json.Marshal`.
pub set : (CacheEntry → String) → ℕ → String → String → String → ResponseCache → ResponseCache
set encode now key response content_type rc =
    let entry : CacheEntry = record {
      response = response;
      content_type = content_type;
      expiry = now + rc.ttl;
    } in
    record rc {
      redis = send (Redis.set (cache_key key) (Redis.text (encode entry)) rc.ttl ∷ []) rc.redis;
      local_cache = insert key entry rc.local_cache;
    }

-- `starred` is whether the pattern has a star, `covers` whether a key has the rest of it, and
-- `keys` what `Keys` returned for it.
invalidate : Bool → (String → Bool) → List String → String → ResponseCache → ResponseCache
invalidate starred covers keys pattern rc = record rc {
  redis = send (map Redis.del keys) rc.redis;
  local_cache =
      if starred
      then (λ key. if covers key then none else rc.local_cache key)
      else delete pattern rc.local_cache;
}

-- one round of `cleanupLoop`
pub cleanup : ℕ → ResponseCache → ResponseCache
cleanup now rc = record rc {
  local_cache = λ key. elim (rc.local_cache key) [
    | none ↦ none
    | some entry ↦ if ltb entry.expiry now then none else some entry
  ];
}

-- What the middleware does: it answers from the cache, or passes the request on as a miss or, where
-- the method is not GET or there is no key, as it is.
pub data Served : Type 0 where
  hit : String × String → Served
  miss : Served
  passed : Served

pub middleware : Option CacheEntry → ℕ → String → String → ResponseCache → ResponseCache × Served
middleware remote now method key rc =
    let (rc', answer) = get remote now key rc in
    ite (text_discrete method "GET")
      (ite (text_discrete key "") (rc, passed)
        (elim answer [ none ↦ (rc', miss) | some found ↦ (rc', hit found) ]))
      (rc, passed)

-- `ExecuteWithRetry` from attempt `i`, with `left` more after it: whether an attempt succeeded, and
-- the delays slept through. `works i` is whether the i-th call returns no error.
attempts : (ℕ → Bool) → ℕ → ℕ → ℕ → Bool × List ℕ
attempts works backoff_base i zero = (works i, [])
attempts works backoff_base i (suc left) =
    let (succeeded, delays) = attempts works backoff_base (suc i) left in
    if works i then (true, []) else (succeeded, backoff_base * suc i ∷ delays)

pub execute_with_retry : (ℕ → Bool) → ℕ → ℕ → Bool × List ℕ
unfolding attempts
execute_with_retry works max_retries backoff_base = attempts works backoff_base 0 max_retries
