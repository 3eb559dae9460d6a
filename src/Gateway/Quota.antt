-- ===== src/Gateway/Quota.antt =====
-- gateway/keyquota.go: monthly bandwidth of a node. `next_reset` is `getNextResetTime`'s calendar
-- step: the start of the month after a time.
mod Limits
mod Examples
use pmi.Base.{
  [], text_append, ℕ, ◌+◌, ◌-◌, ◌*◌, String, Bool, ◌&&◌, Option, none, some, ◌∷◌, ltb,
  if◌then◌else◌, StringMap, insert,
}
use pmi.Base.Redis
use pmi.Base.Redis.{Outbox, send}

pub record QuotaInfo : Type 0 where
  pub node_id : String
  pub monthly_gb : ℕ
  pub used_gb : ℕ
  pub reset_at : ℕ
  pub hard_limit : Bool

pub record BandwidthQuota : Type 0 where
  pub quotas : StringMap QuotaInfo
  pub redis : Outbox

-- `bool, error` of `CheckQuota`
pub data Check : Type 0 where
  allowed : Check
  exceeded : Check

abbrev quota_key : String → String
quota_key node_id = text_append "quota:" node_id

module _ (next_reset : ℕ → ℕ) where
  pub set_quota : ℕ → String → ℕ → Bool → BandwidthQuota → BandwidthQuota
  set_quota now node_id monthly_gb hard_limit bq = record {
    quotas =
        insert node_id
          (record {
            node_id = node_id;
            monthly_gb = monthly_gb;
            used_gb = 0;
            reset_at = next_reset now;
            hard_limit = hard_limit;
          })
          bq.quotas;
    redis =
        send
          (Redis.hset (quota_key node_id) "monthly_gb" (Redis.number monthly_gb)
            ∷ Redis.hset (quota_key node_id) "used_gb" (Redis.number 0)
            ∷ Redis.hset (quota_key node_id) "hard_limit" (Redis.flag hard_limit)
            ∷ [])
          bq.redis;
  }

  -- The month's turn, at the head of `CheckQuota` and `RecordUsage`.
  pub roll_over : ℕ → QuotaInfo → QuotaInfo
  roll_over now quota =
      if ltb quota.reset_at now
      then record quota { used_gb = 0; reset_at = next_reset now }
      else quota

  pub check_quota : ℕ → String → ℕ → BandwidthQuota → BandwidthQuota × Check
  check_quota now node_id additional_gb bq = elim (bq.quotas node_id) [
    | none ↦ (bq, allowed)
    | some quota ↦
        let quota' = roll_over now quota in
        let new_used = quota'.used_gb + additional_gb in
        (
          record bq { quotas = insert node_id quota' bq.quotas },
          if ltb quota'.monthly_gb new_used && quota'.hard_limit then exceeded else allowed,
        )
  ]

  pub record_usage : ℕ → String → ℕ → BandwidthQuota → BandwidthQuota
  record_usage now node_id additional_gb bq = elim (bq.quotas node_id) [
    | none ↦ bq
    | some quota ↦
        let quota' = roll_over now quota in
        record {
          quotas =
              insert node_id (record quota' { used_gb = quota'.used_gb + additional_gb }) bq.quotas;
          redis =
              send
                (Redis.hincr_by (quota_key node_id) "used_gb" (additional_gb * 1024 * 1024 * 1024)
                  ∷ [])
                bq.redis;
        }
  ]

-- `none` is the -1 of a node without a quota.
get_remaining_quota : String → BandwidthQuota → Option ℕ
get_remaining_quota node_id bq = elim (bq.quotas node_id) [
  | none ↦ none
  | some quota ↦
      some (if ltb quota.monthly_gb quota.used_gb then 0 else quota.monthly_gb - quota.used_gb)
]
