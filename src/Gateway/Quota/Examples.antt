-- ===== src/Gateway/Quota/Examples.antt =====
-- gateway/keyquota.go: uses of a quota whose checks come before their records.
use pmi.Base.{ℕ, ◌+◌, ◌≡◌, refl, true, List, [], ◌∷◌, arith, empty}
use pmi.Gateway.Quota.{BandwidthQuota, exceeded, allowed, check_quota, set_quota, roll_over}
use pmi.Gateway.Quota.Limits.{
  Call, check, use_up, Until, recorded, step, calls_made, check_counts_recorded,
}

abbrev month_later : ℕ → ℕ
month_later t = t + 30

abbrev no_quotas : BandwidthQuota
no_quotas = record { quotas = empty; redis = record { connected = true; sent = [] } }

abbrev one_quota : BandwidthQuota
one_quota = set_quota month_later 0 "n" 10 true no_quotas

-- Two callers check before either records.
abbrev overlapping : List Call
overlapping = check 1 "n" 7 ∷ check 1 "n" 7 ∷ use_up 2 "n" 7 ∷ use_up 2 "n" 7 ∷ []

overlapping-Until : Until 30 overlapping
unfolding Until
overlapping-Until = (omega arith, (omega arith, (omega arith, (omega arith, tt))))

check_counts_recorded_example :
    (check_quota month_later 3 "n" 1 (calls_made month_later overlapping one_quota)).1 ≡ exceeded
unfolding recorded pmi.Base.text_discrete
check_counts_recorded_example =
    check_counts_recorded month_later 0 10 true "n" no_quotas overlapping overlapping-Until 3 1

second_check_allowed :
    (check_quota month_later 1 "n" 7 (calls_made month_later (check 1 "n" 7 ∷ []) one_quota)).1
    ≡ allowed
unfolding calls_made step set_quota check_quota roll_over pmi.Base.text_discrete
second_check_allowed = refl
