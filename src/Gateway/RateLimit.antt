-- ===== src/Gateway/RateLimit.antt =====
-- gateway/ratelimit.go: the fixed-window limiter in memory. A time is a number of nanoseconds, and
-- what the code reads from the clock is an argument; limits are not negative.
pub mod Window
pub mod Cleanup
mod Examples
use pmi.Base.{
  text_append, ℕ, ◌+◌, ◌*◌, String, ite, Bool, true, false, none, some, ltb, leb, if◌then◌else◌,
  text_discrete, StringMap, empty, insert,
}
use pmi.Base.Http.{Request, Reply, next, abort}

pub record ClientRateLimit : Type 0 where
  pub count : ℕ
  pub reset_time : ℕ

-- `limited` is the counter behind `metrics.IncRateLimited`.
pub record LocalRateLimiter : Type 0 where
  pub requests : StringMap ClientRateLimit
  pub limit : ℕ
  pub window : ℕ
  pub limited : ℕ

abbrev pub second : ℕ
second = 1_000_000_000

unfoldable pub new_local_rate_limiter : ℕ → ℕ → LocalRateLimiter
new_local_rate_limiter requests_per_window window_seconds = record {
  requests = empty;
  limit = requests_per_window;
  window = window_seconds * second;
  limited = 0;
}

start_window : ℕ → String → LocalRateLimiter → LocalRateLimiter × Bool
start_window now id rl = (
  record rl {
    requests = insert id (record { count = 1; reset_time = now + rl.window }) rl.requests;
  },
  true,
)

count_request : String → ClientRateLimit → LocalRateLimiter → LocalRateLimiter × Bool
count_request id client rl =
    if leb rl.limit client.count then (record rl { limited = rl.limited + 1 }, false) else (
      record rl { requests = insert id (record client { count = client.count + 1 }) rl.requests },
      true,
    )

unfoldable pub allow : ℕ → String → LocalRateLimiter → LocalRateLimiter × Bool
unfolding start_window count_request
allow now id rl = elim (rl.requests id) [
  | none ↦ start_window now id rl
  | some client ↦
      if ltb client.reset_time now then start_window now id rl else count_request id client rl
]

-- one round of `cleanup`
pub cleanup : ℕ → LocalRateLimiter → LocalRateLimiter
cleanup now rl = record rl {
  requests = λ key. elim (rl.requests key) [
    | none ↦ none
    | some client ↦ if ltb client.reset_time now then none else some client
  ];
}

unfoldable pub set_limit : ℕ → LocalRateLimiter → LocalRateLimiter
set_limit limit rl = record rl { limit = limit }

unfoldable pub get_limit : LocalRateLimiter → ℕ
get_limit rl = rl.limit

set_window : ℕ → LocalRateLimiter → LocalRateLimiter
set_window window rl = record rl { window = window }

-- the key that the middlewares of the package limit by
pub client_key : Request → String
client_key r =
    let auth = ite (text_discrete r.authorization "") r.proxy_authorization r.authorization in
    ite (text_discrete auth "") r.client_ip (text_append r.client_ip (text_append ":" auth))

pub middleware : ℕ → Request → LocalRateLimiter → LocalRateLimiter × Reply
middleware now r rl =
    let (rl', allowed) = allow now (client_key r) rl in (rl', if allowed then next else abort 429)
