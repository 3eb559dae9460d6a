-- ===== src/Payout/Tiers.antt =====
-- payout/service.go: the tier of an amount of traffic.
use pmi.Base.{◌≡◌, refl, false, List, [], ◌∷◌, All}
use pmi.Base.Floats.{FloatOps}
use pmi.Payout.{PricingTier, PayoutService, in_tier, tier_from, find_tier}

module _ {ℓ} {F : Type ℓ} (ops : FloatOps F) where
  beyond_from :
      (total : F) (tiers : List (PricingTier F))
      → All (λ (tier : PricingTier F). in_tier ops total tier ≡ false) tiers
      → tier_from ops total tiers ≡ "Basic"
  unfolding tier_from
  beyond_from total [] h = refl
  beyond_from total (tier ∷ tiers) (no_tier, h) = rw no_tier (beyond_from total tiers h)

  -- Traffic that no tier covers, so that beyond the largest tier too, is paid as the tier "Basic".
  beyond_tiers_basic :
      (total : F) (p : PayoutService F)
      → All (λ (tier : PricingTier F). in_tier ops total tier ≡ false) p.tiers
      → find_tier ops total p ≡ "Basic"
  unfolding find_tier
  beyond_tiers_basic total p h = beyond_from total p.tiers h
