-- ===== src/Gateway/Cache/Life.antt =====
-- gateway/cache.go: how long an entry is found, and what the middleware stores.
use pmi.Base.{
  ℕ, ◌+◌, ◌≤◌, String, ◌≡◌, refl, ◌∙◌, Bool, true, false, none, some, List, [], ◌∷◌, arith, ltb,
  if◌then◌else◌, All,
}
use pmi.Gateway.Cache.{
  CacheEntry, ResponseCache, new_response_cache, Answer, get_local, live_remote, get, set, cleanup,
  Served, hit, miss, passed, middleware,
}

-- A response that was stored is found, with its type, until the cache's time to live is over and
-- not from then on, whether a cleanup ran before the read or not, where Redis has no entry for the
-- key.
get-set :
    (encode : CacheEntry → String) (stored_at cleaned now : ℕ) (key response content_type : String)
    (rc : ResponseCache)
    → cleaned ≤ now
    → let found : Answer =
        if ltb now (stored_at + rc.ttl) then some (response, content_type) else none in
      let kept = set encode stored_at key response content_type rc in
      ((get none now key kept).1 ≡ found) × ((get none now key (cleanup cleaned kept)).1 ≡ found)
unfolding get set cleanup get_local live_remote
get-set encode stored_at cleaned now key response content_type rc h = (ground arith, ground arith)

pub record CachedRequest : Type 0 where
  pub at : ℕ
  pub method : String
  pub key : String

-- Requests through the middleware, with how each was served.
pub serve : List CachedRequest → ResponseCache → List Served
serve [] rc = []
serve (r ∷ rs) rc =
    let (rc', served) = middleware none r.at r.method r.key rc in served ∷ serve rs rc'

pub is_hit : Served → Bool
is_hit (hit answer) = true
is_hit miss = false
is_hit passed = false

abbrev pub NotHit : Served → Type 0
NotHit served = is_hit served ≡ false

missed :
    (r : CachedRequest) (rc : ResponseCache)
    → ((key : String) → rc.local_cache key ≡ none)
    → ((key : String)
        → (middleware none r.at r.method r.key rc).0.local_cache key ≡ rc.local_cache key)
      × NotHit (middleware none r.at r.method r.key rc).1
unfolding middleware get get_local live_remote is_hit
missed r rc h = (λ key. ground (arith, h r.key), ground (arith, h r.key))

serve_empty :
    (rs : List CachedRequest) (rc : ResponseCache)
    → ((key : String) → rc.local_cache key ≡ none)
    → All NotHit (serve rs rc)
unfolding serve
serve_empty [] rc h = tt
serve_empty (r ∷ rs) rc h =
    let (same, served) = missed r rc h in
    (served, serve_empty rs (middleware none r.at r.method r.key rc).0 (λ key. same key ∙ h key))

-- The middleware stores no response: with a new cache, and nothing in Redis, no sequence of
-- requests is ever answered from the cache.
middleware_never_fills :
    (connected : Bool) (ttl : ℕ) (rs : List CachedRequest)
    → All NotHit (serve rs (new_response_cache connected ttl))
unfolding new_response_cache
middleware_never_fills connected ttl rs =
    serve_empty rs (new_response_cache connected ttl) (λ key. refl)
