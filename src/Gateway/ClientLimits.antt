-- ===== src/Gateway/ClientLimits.antt =====
-- gateway/client_ratelimit.go: a limit for each client, in Redis or in memory. Redis's answers are
-- arguments, none for an error; limits are not negative.
mod Agreement
mod Examples
use pmi.Base.{
  [], text_append, ℕ, ◌+◌, ◌*◌, String, Bool, true, false, Option, none, some, ◌∷◌, ltb, leb, ◌==◌,
  if◌then◌else◌, StringMap, insert,
}
use pmi.Base.Http.{Request, Reply, next, abort}
use pmi.Base.Redis
use pmi.Base.Redis.{Outbox, send}
use pmi.Gateway.RateLimit.{second}

pub record ClientLimit : Type 0 where
  pub count : ℕ
  pub expires_at : ℕ

pub record ClientRateLimiter : Type 0 where
  pub redis : Outbox
  pub default_limit : ℕ
  pub window_seconds : ℕ
  pub local_cache : StringMap ClientLimit

-- What `Get(...).Int()` returns: `redis.Nil`, another error, or a number.
pub data LimitAnswer : Type 0 where
  missing : LimitAnswer
  failed : LimitAnswer
  stored : ℕ → LimitAnswer

read_limit : ℕ → LimitAnswer → Option ℕ
read_limit default missing = some default
read_limit default failed = none
read_limit default (stored n) = some n

pub get_client_limit : LimitAnswer → ClientRateLimiter → Option ℕ
unfolding read_limit
get_client_limit answer crl =
    if crl.redis.connected then read_limit crl.default_limit answer else some crl.default_limit

-- `getClientLimit`: 0 for an error
limit_or_zero : LimitAnswer → ClientRateLimiter → ℕ
limit_or_zero answer crl = elim (get_client_limit answer crl) [ none ↦ 0 | some limit ↦ limit ]

-- What `localCheck` reads under the read lock and decides: the request is refused, or counts on in
-- the window that ends at a time, or opens a new one.
pub data Decision : Type 0 where
  refuse : Decision
  count_on : ℕ → Decision
  new_window : Decision

pub look : ℕ → String → ℕ → ClientRateLimiter → Decision
look now client_ip limit crl = elim (crl.local_cache client_ip) [
  | none ↦ new_window
  | some cl ↦
      if ltb now cl.expires_at
      then (if leb limit cl.count then refuse else count_on cl.expires_at)
      else new_window
]

-- `cl.count++`, outside any lock, on the window that was read, which the end of it identifies. A
-- window that was replaced or deleted since counts on unseen.
count_up : String → ℕ → ClientRateLimiter → ClientRateLimiter
count_up client_ip expires_at crl = elim (crl.local_cache client_ip) [
  | none ↦ crl
  | some cl ↦
      if cl.expires_at == expires_at
      then record crl {
        local_cache = insert client_ip (record cl { count = cl.count + 1 }) crl.local_cache;
      }
      else crl
]

-- The rest of `localCheck`, for a request that came at `now`.
pub settle : ℕ → String → Decision → ClientRateLimiter → ClientRateLimiter × Bool
unfolding count_up
settle now client_ip refuse crl = (crl, false)
settle now client_ip (count_on expires_at) crl = (count_up client_ip expires_at crl, true)
settle now client_ip new_window crl = (
  record crl {
    local_cache =
        insert client_ip (record { count = 1; expires_at = now + crl.window_seconds * second })
          crl.local_cache;
  },
  true,
)

-- The two steps, with none of another request between them.
pub local_check : ℕ → String → ℕ → ClientRateLimiter → ClientRateLimiter × Bool
unfolding look settle
local_check now client_ip limit crl = settle now client_ip (look now client_ip limit crl) crl

remote_check : Option ℕ → String → ℕ → ClientRateLimiter → ClientRateLimiter × Option Bool
remote_check incr_answer client_ip limit crl =
    let key = text_append "client_rate:" client_ip in
    elim incr_answer [
      | none ↦ (record crl { redis = send (Redis.incr key ∷ []) crl.redis }, none)
      | some count ↦
          let first =
            if count == 1 then Redis.expire key (crl.window_seconds * second) ∷ [] else [] in
          (record crl { redis = send (Redis.incr key ∷ first) crl.redis }, some (leb count limit))
    ]

-- none: an error
pub check_rate_limit :
    Option ℕ → ℕ → String → ℕ → ClientRateLimiter → ClientRateLimiter × Option Bool
unfolding remote_check local_check
check_rate_limit incr_answer now client_ip limit crl =
    if crl.redis.connected
    then remote_check incr_answer client_ip limit crl
    else (let (crl', allowed) = local_check now client_ip limit crl in (crl', some allowed))

reply : Option Bool → Reply
reply none = abort 500
reply (some allowed) = if allowed then next else abort 429

-- `local` is whether the address is loopback or private.
pub middleware :
    Bool → LimitAnswer → Option ℕ → ℕ → Request → ClientRateLimiter → ClientRateLimiter × Reply
unfolding limit_or_zero get_client_limit reply
middleware local answer incr_answer now r crl =
    let read = limit_or_zero answer crl in
    let limit = if read == 0 then crl.default_limit else read in
    let (crl', verdict) = check_rate_limit incr_answer now r.client_ip limit crl in
    if local then (crl, next) else (crl', reply verdict)

-- one round of `cleanupLoop`
pub cleanup : ℕ → ClientRateLimiter → ClientRateLimiter
cleanup now crl = record crl {
  local_cache = λ ip. elim (crl.local_cache ip) [
    | none ↦ none
    | some cl ↦ if ltb cl.expires_at now then none else some cl
  ];
}

limit_key : String → String
limit_key client_ip = text_append "client_limit:" client_ip

set_client_limit : String → ℕ → ClientRateLimiter → ClientRateLimiter
set_client_limit client_ip limit crl = record crl {
  redis = send (Redis.set (limit_key client_ip) (Redis.number limit) 0 ∷ []) crl.redis;
}

remove_client_limit : String → ClientRateLimiter → ClientRateLimiter
remove_client_limit client_ip crl = record crl {
  redis = send (Redis.del (limit_key client_ip) ∷ []) crl.redis;
}
