-- ===== src/Gateway/ClientLimits/Agreement.antt =====
-- gateway/client_ratelimit.go against gateway/ratelimit.go: two limiters in memory.
use pmi.Base.{
  ℕ, ◌*◌, ◌<◌, String, Bool, List, [], ◌∷◌, map, ap, ◌∙◌, refl, ◌≡◌, true, false, none, some, arith,
  leb, ◌==◌, if◌then◌else◌,
}
use pmi.Base.Http.{Request, next, abort}
use pmi.Gateway.RateLimit.{LocalRateLimiter, ClientRateLimit, second}
use pmi.Gateway.RateLimit
use pmi.Gateway.ClientLimits.{
  ClientLimit, ClientRateLimiter, LimitAnswer, missing, failed, stored, read_limit,
  get_client_limit, limit_or_zero, Decision, count_on, look, count_up, settle, remote_check,
  check_rate_limit, reply, middleware,
}

abbrev same_window : ClientLimit → ClientRateLimit
same_window cl = record { count = cl.count; reset_time = cl.expires_at }

-- The two hold the same windows under the same settings.
pub record Agrees (limit : ℕ) (crl : ClientRateLimiter) (rl : LocalRateLimiter) : Type 0 where
  pub limits : rl.limit ≡ limit
  pub windows : rl.window ≡ crl.window_seconds * second
  pub entries :
      (ip : String)
      → rl.requests ip ≡ elim (crl.local_cache ip) [ none ↦ none | some cl ↦ some (same_window cl) ]

-- No window ends at just that time.
abbrev pub Off : ℕ → String → ClientRateLimiter → Type 0
Off now ip crl = elim (crl.local_cache ip) [ none ↦ Unit {0} | some cl ↦ ¬ (now ≡ cl.expires_at) ]

-- Requests that came at the given times and all decided the same take their second steps.
settle_all : String → Decision → List ℕ → ClientRateLimiter → ClientRateLimiter × List Bool
settle_all ip d [] crl = (crl, [])
settle_all ip d (t ∷ ts) crl =
    let (crl', passed) = settle t ip d crl in
    let (crl'', others) = settle_all ip d ts crl' in (crl'', passed ∷ others)

settle_all-count_on :
    (ip : String) (end : ℕ) (ts : List ℕ) (crl : ClientRateLimiter)
    → (settle_all ip (count_on end) ts crl).1 ≡ map (λ t. true) ts
unfolding settle_all settle
settle_all-count_on ip end [] crl = refl
settle_all-count_on ip end (t ∷ ts) crl =
    ap (λ bs. true ∷ bs) (settle_all-count_on ip end ts (count_up ip end crl))

-- Requests of one client that all read an open window below the limit before any of them counts
-- pass all, however many they are.
overlapping_pass :
    (now limit : ℕ) (ip : String) (crl : ClientRateLimiter) (cl : ClientLimit) (times : List ℕ)
    → crl.local_cache ip ≡ some cl
    → now < cl.expires_at
    → cl.count < limit
    → (settle_all ip (look now ip limit crl) times crl).1 ≡ map (λ t. true) times
unfolding look
overlapping_pass now limit ip crl cl times found open_ below =
    let decided : look now ip limit crl ≡ count_on cl.expires_at = ground (arith, found) in
    ap (λ d. (settle_all ip d times crl).1) decided ∙ settle_all-count_on ip cl.expires_at times crl

-- With Redis, for a client on no local address, the request that is the `count`-th in its window
-- passes exactly if the count is at most the client's stored limit, or the default one where none
-- is stored, where the stored one is 0 and where the read of it fails. So a stored limit of 0
-- blocks nobody unless the default does.
middleware_with_redis :
    (answer : LimitAnswer) (count now : ℕ) (r : Request) (crl : ClientRateLimiter)
    → crl.redis.connected ≡ true
    → (middleware false answer (some count) now r crl).1 ≡ (
        if leb count (elim answer [
          | missing ↦ crl.default_limit
          | failed ↦ crl.default_limit
          | stored n ↦ if n == 0 then crl.default_limit else n
        ])
        then next
        else abort 429)
unfolding middleware limit_or_zero get_client_limit read_limit check_rate_limit remote_check reply
middleware_with_redis missing count now r crl on = ground arith
middleware_with_redis failed count now r crl on = ground arith
middleware_with_redis (stored n) count now r crl on = ground arith
