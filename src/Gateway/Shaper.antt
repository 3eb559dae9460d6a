-- ===== src/Gateway/Shaper.antt =====
-- gateway/ddos_shaper.go, `TrafficShaper`: a token bucket for each client. `refill rate elapsed` is
-- `int64(float64(rate) * elapsed.Seconds())`, and `local` says which addresses `net.ParseIP` finds
-- to be loopback or private.
mod Bucket
use pmi.Base.{
  [], text_append, ℕ, ◌+◌, ◌-◌, ◌*◌, String, Bool, true, false, none, some, ◌∷◌, ltb, leb,
  if◌then◌else◌, StringMap, insert,
}
use pmi.Base.Http.{Request, Reply, next, abort}
use pmi.Base.Redis
use pmi.Base.Redis.{Outbox, send}
use pmi.Gateway.RateLimit.{second}

pub record ClientBandwidth : Type 0 where
  pub tokens : ℕ
  pub last_update : ℕ
  pub rate : ℕ
  pub burst : ℕ

pub record TrafficShaper : Type 0 where
  pub redis : Outbox
  pub bandwidths : StringMap ClientBandwidth
  pub default_rate : ℕ
  pub default_burst : ℕ

set_client_rate : String → ℕ → ℕ → TrafficShaper → TrafficShaper
set_client_rate client_ip rate burst ts =
    let key = text_append "shaper:" client_ip in
    record ts {
      redis =
          send
            (Redis.hset key "rate" (Redis.number rate)
              ∷ Redis.hset key "burst" (Redis.number burst)
              ∷ Redis.expire key (24 * 3600 * second)
              ∷ [])
            ts.redis;
    }

module _ (refill : ℕ → ℕ → ℕ) where
  refilled : ℕ → ClientBandwidth → ClientBandwidth
  refilled now bw =
      let tokens = bw.tokens + refill bw.rate (now - bw.last_update) in
      record bw { tokens = if ltb bw.burst tokens then bw.burst else tokens }

  pub check_bandwidth : ℕ → String → ℕ → TrafficShaper → TrafficShaper × Bool
  check_bandwidth now client_ip bytes ts = elim (ts.bandwidths client_ip) [
    | none ↦ (
      record ts {
        bandwidths =
            insert client_ip
              (record {
                tokens = ts.default_burst;
                last_update = now;
                rate = ts.default_rate;
                burst = ts.default_burst;
              })
              ts.bandwidths;
      },
      true,
    )
    | some bw ↦
        let bw' = refilled now bw in
        if leb bytes bw'.tokens
        then (
          record ts {
            bandwidths =
                insert client_ip (record bw' { tokens = bw'.tokens - bytes; last_update = now })
                  ts.bandwidths;
          },
          true,
        )
        else (record ts { bandwidths = insert client_ip bw' ts.bandwidths }, false)
  ]

  pub middleware : (String → Bool) → ℕ → Request → TrafficShaper → TrafficShaper × Reply
  middleware local now r ts =
      let (ts', passes) = check_bandwidth now r.client_ip 0 ts in
      if local r.client_ip then (ts, next) else (ts', if passes then next else abort 429)

-- one round of `cleanupLoop`
pub cleanup : ℕ → TrafficShaper → TrafficShaper
cleanup now ts = record ts {
  bandwidths = λ ip. elim (ts.bandwidths ip) [
    | none ↦ none
    | some bw ↦ if ltb (600 * second) (now - bw.last_update) then none else some bw
  ];
}
