-- ===== src/Gateway/Tiers/Examples.antt =====
-- gateway/rate_limit_tiers.go: runs of the tiers.
use pmi.Base.{ℕ, List, [], ◌∷◌, String, ◌≡◌, refl, some, text_discrete, StringMap, empty, insert}
use pmi.Gateway.RateLimit.{LocalRateLimiter, new_local_rate_limiter}
use pmi.Gateway.Tiers.{RateLimitTiers, new_rate_limit_tiers, get_tier_for_key}

abbrev inner : LocalRateLimiter
inner = new_local_rate_limiter 5 60

abbrev stored : StringMap String
stored = insert "key:tier:k" "premium" empty

abbrev tiers_with_redis : RateLimitTiers
tiers_with_redis = new_rate_limit_tiers (some stored)

premium_is_found : get_tier_for_key tiers_with_redis "k" ≡ "premium"
unfolding get_tier_for_key new_rate_limit_tiers text_discrete
premium_is_found = refl

abbrev requests : List (ℕ × (String × String))
requests = (1, ("a", "k")) ∷ (2, ("b", "")) ∷ (3, ("a", "k")) ∷ []
