-- ===== src/Gateway/ApiKeys/Scopes.antt =====
-- gateway/apikey.go: what a key's scope allows.
use pmi.Base.{ℕ, ◌≤◌, String, ◌≡◌, Bool, true, arith}
use pmi.Gateway.ApiKeys.{KeyStore, has_min_scope, scope_level}

module _ {ℓ} {S : Type ℓ} (redis : KeyStore S) (hash_key : String → String) where
  -- A key that has the least scope asked for has every scope of no higher level as the least, at
  -- the same time and in the same state.
  min_scope_descends :
      (fails : ℕ → Bool) (now : ℕ) (raw_key high low : String) (s : S)
      → scope_level low ≤ scope_level high
      → (has_min_scope redis hash_key fails now raw_key high s).1 ≡ true
      → (has_min_scope redis hash_key fails now raw_key low s).1 ≡ true
  unfolding has_min_scope
  min_scope_descends fails now raw_key high low s h e = ground arith
