-- ===== src/Gateway/Cache/Examples.antt =====
-- gateway/cache.go: runs.
use pmi.Base.{ℕ, ◌≡◌, refl, Bool, true, [], ◌∷◌, ◌==◌}
use pmi.Gateway.Cache.{execute_with_retry}

abbrev third_works : ℕ → Bool
third_works i = i == 2

delays : execute_with_retry third_works 4 10 ≡ (true, 10 ∷ 20 ∷ [])
unfolding execute_with_retry
delays = refl
