-- ===== src/Gateway/Ddos.antt =====
-- gateway/ddos_shaper.go, `DDoSProtection`: failures counted by client. Of Redis, the answer to
-- `Incr` and whether the block's key exists are arguments, 0 and false for an error.
mod Blocking
mod Examples
use pmi.Base.{
  [], text_append, ℕ, ◌+◌, ◌*◌, String, Bool, true, false, ◌&&◌, Option, none, some, ◌∷◌, ◌++◌, ltb,
  leb, ◌==◌, if◌then◌else◌, StringMap, insert, delete,
}
use pmi.Base.Http.{Request, Reply, next, abort}
use pmi.Base.Redis
use pmi.Base.Redis.{Outbox, send}
use pmi.Gateway.RateLimit.{second}

pub record FailedRequestStats : Type 0 where
  pub count : ℕ
  pub first_fail : ℕ
  pub last_fail : ℕ

pub record DdosProtection : Type 0 where
  pub redis : Outbox
  pub failed_requests : StringMap FailedRequestStats
  pub threshold : ℕ
  pub window_seconds : ℕ
  pub block_duration : ℕ
  pub whitelist : StringMap Bool

failed_key : String → String
failed_key ip = text_append "ddos:failed:" ip

blocked_key : String → String
blocked_key ip = text_append "ddos:blocked:" ip

record_remote : ℕ → String → DdosProtection → DdosProtection
record_remote count ip ddos =
    let first =
      if count == 1 then Redis.expire (failed_key ip) (ddos.window_seconds * second) ∷ [] else [] in
    let block =
      if leb ddos.threshold count
      then Redis.set (blocked_key ip) (Redis.number 1) ddos.block_duration ∷ []
      else [] in
    record ddos { redis = send (Redis.incr (failed_key ip) ∷ first ++ block) ddos.redis }

-- `stats`, made if the client has none
stats_or_new : ℕ → Option FailedRequestStats → FailedRequestStats
stats_or_new now none = record { count = 0; first_fail = now; last_fail = 0 }
stats_or_new now (some stats) = stats

-- The inner test for a Redis client cannot hold here, and is left out.
record_local : ℕ → String → DdosProtection → DdosProtection
record_local now ip ddos =
    let stats = stats_or_new now (ddos.failed_requests ip) in
    record ddos {
      failed_requests =
          insert ip (record stats { count = stats.count + 1; last_fail = now })
            ddos.failed_requests;
    }

pub record_failure : ℕ → ℕ → String → DdosProtection → DdosProtection
unfolding record_local stats_or_new
record_failure incr_count now ip ddos = elim ddos.redis.connected [
  | true ↦ record_remote incr_count ip ddos
  | false ↦ record_local now ip ddos
]

blocked_locally : ℕ → DdosProtection → Option FailedRequestStats → Bool
blocked_locally now ddos none = false
blocked_locally now ddos (some stats) =
    leb ddos.threshold stats.count && ltb now (stats.first_fail + ddos.window_seconds * second)

pub is_blocked : Bool → ℕ → String → DdosProtection → Bool
unfolding blocked_locally
is_blocked block_exists now ip ddos = elim ddos.redis.connected [
  | true ↦ block_exists
  | false ↦ blocked_locally now ddos (ddos.failed_requests ip)
]

block_ip : String → DdosProtection → DdosProtection
block_ip ip ddos = record ddos {
  redis = send (Redis.set (blocked_key ip) (Redis.number 1) ddos.block_duration ∷ []) ddos.redis;
}

unblock_ip : String → DdosProtection → DdosProtection
unblock_ip ip ddos = record ddos { redis = send (Redis.del (blocked_key ip) ∷ []) ddos.redis }

add_to_whitelist : String → DdosProtection → DdosProtection
add_to_whitelist ip ddos = record ddos { whitelist = insert ip true ddos.whitelist }

remove_from_whitelist : String → DdosProtection → DdosProtection
remove_from_whitelist ip ddos = record ddos { whitelist = delete ip ddos.whitelist }

is_whitelisted : String → DdosProtection → Bool
is_whitelisted ip ddos = elim (ddos.whitelist ip) [ none ↦ false | some b ↦ b ]

pub middleware : Bool → ℕ → Request → DdosProtection → Reply
middleware block_exists now r ddos =
    if is_whitelisted r.client_ip ddos
    then next
    else if is_blocked block_exists now r.client_ip ddos
    then abort 403
    else next
