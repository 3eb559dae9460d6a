-- ===== src/Gateway/Tiers.antt =====
-- gateway/rate_limit_tiers.go: the tiers, and the limiter that a tier's limit is put into for one
-- request. `RateLimiter` of gateway/ratelimit.go is an interface, so the tiers take it as one.
mod Examples
use pmi.Base.{
  List, [], ◌∷◌, ◌∙◌, text_append, ℕ, ◌≤◌, String, ◌≡◌, refl, ◌≢◌, ite, Bool, Option, none, some,
  arith, if◌then◌else◌, text_discrete, StringMap, empty, insert,
}
use pmi.Base.Http.{Request, Reply, next, abort}
use pmi.Gateway.RateLimit
use pmi.Gateway.RateLimit.{LocalRateLimiter, client_key}

-- The pair that `Allow` returns.
pub record Answer : Type 0 where
  pub allowed : Bool
  pub err : Option String

-- The methods of the interface that the tiers call, and what they rely on.
pub record RateLimiter : Type 1 where
  pub State : Type 0
  pub allow : ℕ → String → State → State × Answer
  pub set_limit : ℕ → State → State
  pub get_limit : State → ℕ
  pub get_limit-set_limit : (n : ℕ) (s : State) → get_limit (set_limit n s) ≡ n
  pub get_limit-allow :
      (now : ℕ) (id : String) (s : State) → get_limit (allow now id s).0 ≡ get_limit s

pub record RateLimitTier : Type 0 where
  pub name : String
  pub requests : ℕ
  pub window_sec : ℕ

-- `redis` is none for a nil client; else it answers `Get` of a key, none being an error or no key.
pub record RateLimitTiers : Type 0 where
  pub tiers : StringMap RateLimitTier
  pub redis : Option (StringMap String)

pub new_rate_limit_tiers : Option (StringMap String) → RateLimitTiers
new_rate_limit_tiers redis = record {
  tiers =
      insert "free" (record { name = "free"; requests = 10; window_sec = 60 })
        (insert "basic" (record { name = "basic"; requests = 100; window_sec = 60 })
          (insert "premium" (record { name = "premium"; requests = 1000; window_sec = 60 })
            (insert "enterprise" (record { name = "enterprise"; requests = 10000; window_sec = 60 })
              empty)));
  redis = redis;
}

-- The zero value, which a Go map returns for a missing key.
abbrev zero_tier : RateLimitTier
zero_tier = record { name = ""; requests = 0; window_sec = 0 }

abbrev tier_or_zero : Option RateLimitTier → RateLimitTier
tier_or_zero none = zero_tier
tier_or_zero (some tier) = tier

get_tier : RateLimitTiers → String → RateLimitTier
get_tier r name = elim (r.tiers name) [ some tier ↦ tier | none ↦ tier_or_zero (r.tiers "free") ]

stored_tier : String → StringMap String → String
stored_tier api_key get = elim (get (text_append "key:tier:" api_key)) [
  | none ↦ "basic"
  | some tier ↦ ite (text_discrete tier "") "basic" tier
]

pub get_tier_for_key : RateLimitTiers → String → String
unfolding stored_tier
get_tier_for_key r api_key = elim r.redis [
  | none ↦ "basic"
  | some get ↦ ite (text_discrete api_key "") "basic" (stored_tier api_key get)
]

set_key_tier : String → String → RateLimitTiers → RateLimitTiers
set_key_tier api_key tier r = elim r.redis [
  | none ↦ r
  | some get ↦ record r { redis = some (insert (text_append "key:tier:" api_key) tier get) }
]

module _ (limiter : RateLimiter) where
  open limiter use {State, get_limit-set_limit, get_limit-allow}

  tiered_allow : RateLimitTiers → ℕ → String → String → State → State × Answer
  tiered_allow tiers now client_id api_key s =
      let tier = get_tier tiers (get_tier_for_key tiers api_key) in
      let original = limiter.get_limit s in
      let (s', answer) = limiter.allow now client_id (limiter.set_limit tier.requests s) in
      (limiter.set_limit original s', answer)

  tiered_middleware : RateLimitTiers → ℕ → Request → State → State × Reply
  tiered_middleware tiers now r s =
      let auth = ite (text_discrete r.authorization "") r.proxy_authorization r.authorization in
      let (s', answer) = tiered_allow tiers now (client_key r) auth s in
      (s', elim answer.err [ some e ↦ next | none ↦ if answer.allowed then next else abort 429 ])

  -- Requests through the tiers, each with its time, client and key.
  tiered_run : RateLimitTiers → List (ℕ × (String × String)) → State → State
  tiered_run tiers [] s = s
  tiered_run tiers ((now, (client_id, api_key)) ∷ rs) s =
      tiered_run tiers rs (tiered_allow tiers now client_id api_key s).0

  tiered_run-limit :
      (tiers : RateLimitTiers) (rs : List (ℕ × (String × String))) (s : State)
      → limiter.get_limit (tiered_run tiers rs s) ≡ limiter.get_limit s
  unfolding tiered_run tiered_allow
  tiered_run-limit tiers [] s = refl
  tiered_run-limit tiers ((now, (client_id, api_key)) ∷ rs) s =
      tiered_run-limit tiers rs (tiered_allow tiers now client_id api_key s).0
      ∙ get_limit-set_limit _ _

  -- After any requests through the tiers, with whatever keys, the limiter has the limit that it
  -- had at first; and the next request is answered by the limiter under the limit of its own
  -- key's tier.
  tiered_run_lem :
      (tiers : RateLimitTiers) (rs : List (ℕ × (String × String))) (now : ℕ)
      (client_id api_key : String) (s : State)
      → let s' = tiered_run tiers rs s in
        let tier = get_tier tiers (get_tier_for_key tiers api_key) in
        (limiter.get_limit s' ≡ limiter.get_limit s)
        × ((tiered_allow tiers now client_id api_key s').1
            ≡ (limiter.allow now client_id (limiter.set_limit tier.requests s')).1)
  unfolding tiered_allow
  tiered_run_lem tiers rs now client_id api_key s = (tiered_run-limit tiers rs s, refl)

-- `LocalRateLimiter` fills the interface; it returns no error.
abbrev pub local_answer : LocalRateLimiter × Bool → LocalRateLimiter × Answer
local_answer (rl, allowed) = (rl, record { allowed = allowed; err = none })

pub local_get_limit-allow :
    (now : ℕ) (id : String) (s : LocalRateLimiter)
    → RateLimit.get_limit (local_answer (RateLimit.allow now id s)).0 ≡ RateLimit.get_limit s
unfolding RateLimit.allow RateLimit.get_limit
local_get_limit-allow now id s = ground arith

pub local_get_limit-set_limit :
    (n : ℕ) (s : LocalRateLimiter) → RateLimit.get_limit (RateLimit.set_limit n s) ≡ n
unfolding RateLimit.set_limit RateLimit.get_limit
local_get_limit-set_limit n s = refl

abbrev pub local_limiter : RateLimiter
local_limiter = record {
  State = LocalRateLimiter;
  allow = λ now id s. local_answer (RateLimit.allow now id s);
  set_limit = RateLimit.set_limit;
  get_limit = RateLimit.get_limit;
  get_limit-set_limit = local_get_limit-set_limit;
  get_limit-allow = local_get_limit-allow;
}
