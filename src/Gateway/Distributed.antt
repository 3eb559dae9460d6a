-- ===== src/Gateway/Distributed.antt =====
-- gateway/redis_ratelimit.go: a limit on the requests of a client in the window that ends now,
-- kept as sorted sets in Redis, of whose commands it makes one pipeline. Times are in
-- nanoseconds.
mod Sliding
mod Examples
use pmi.Base.{
  text_append, ℕ, ◌+◌, ◌-◌, ◌*◌, ◌<◌, ◌≤◌, ◌≡◌, String, Bool, true, false, Option, none, some, List,
  [], ◌∷◌, length, ltb, if◌then◌else◌, ite, text_discrete, All,
}
use pmi.Base.Http.{Reply, next, abort}

-- The elements whose score is above that of a bound; `score` is the conversion to a float64.
pub above : (ℕ → ℕ) → ℕ → List ℕ → List ℕ
above score start [] = []
above score start (t ∷ ts) =
    let rest = above score start ts in if ltb (score start) (score t) then t ∷ rest else rest

-- Sorted sets of Redis as its documentation has them, whose members are times, each with the
-- float64 nearest to it for its score, a whole number that does not fall where the time rises:
-- `ZREVRANGE` lists a set from its highest score, `ZREMRANGEBYSCORE` from 0 removes the scores up
-- to that of its bound, `ZCARD` counts the members, and `ZADD` adds one with its score.
pub record SortedSets {ℓ} (S : Type ℓ) : Type ℓ where
  pub score : ℕ → ℕ
  pub zrev_range : String → S → List ℕ
  pub zrem_range_by_score : String → ℕ → S → S
  pub zcard : String → S → ℕ
  pub zadd : String → ℕ → S → S
  pub zrem_lem :
      (k : String) (bound : ℕ) (s : S)
      → zrev_range k (zrem_range_by_score k bound s) ≡ above score bound (zrev_range k s)
  pub score_mono : (t u : ℕ) → t ≤ u → score t ≤ score u
  pub zcard_lem : (k : String) (s : S) → zcard k s ≡ length (zrev_range k s)
  pub zadd_lem :
      (k : String) (t : ℕ) (s : S)
      → All (λ u. u < t) (zrev_range k s)
      → zrev_range k (zadd k t s) ≡ t ∷ zrev_range k s

pub record DistributedRateLimiter : Type 0 where
  pub limit : ℕ
  pub window : ℕ

new_distributed_rate_limiter : ℕ → ℕ → DistributedRateLimiter
new_distributed_rate_limiter requests_per_window window_seconds = record {
  limit = requests_per_window;
  window = window_seconds * 1000000000;
}

set_limit : ℕ → DistributedRateLimiter → DistributedRateLimiter
set_limit limit rl = record rl { limit = limit }

set_window : ℕ → DistributedRateLimiter → DistributedRateLimiter
set_window window rl = record rl { window = window }

pub limit_key : String → String
limit_key client_id = text_append "ratelimit:" client_id

client_of : String → String → String → String
client_of client_ip authorization proxy_authorization =
    let auth = ite (text_discrete authorization "") proxy_authorization authorization in
    ite (text_discrete auth "") client_ip (text_append client_ip (text_append ":" auth))

module _ {ℓ} {S : Type ℓ} (redis : SortedSets S) (rl : DistributedRateLimiter) where
  -- What the pipeline does and counts; the expiry of the whole set, a second after all of its
  -- members are out of the window, is left out.
  counted : String → ℕ → S → S × ℕ
  unfolding limit_key
  counted client_id now s =
      let key = limit_key client_id in
      let fresh = redis.zrem_range_by_score key (now - rl.window) s in
      (redis.zadd key now fresh, redis.zcard key fresh)

  -- `failure` is the error of the pipeline, none for nil; one that fails is taken to change
  -- nothing.
  pub allow : Option String → String → ℕ → S → S × Bool × Option String
  unfolding counted
  allow (some e) client_id now s = (s, true, some e)
  allow none client_id now s =
      let (s', count) = counted client_id now s in (s', ltb count rl.limit, none)

  middleware : Option String → ℕ → String → String → String → S → S × Reply
  unfolding client_of allow
  middleware failure now client_ip authorization proxy_authorization s =
      let (s', allowed, error) =
        allow failure (client_of client_ip authorization proxy_authorization) now s in
      (s', elim error [ some e ↦ next | none ↦ if allowed then next else abort 429 ])
