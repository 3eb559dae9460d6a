-- ===== src/Gateway/KeyExpiry/Laws.antt =====
-- gateway/keyquota.go: when a key counts as expired.
use pmi.Base.{ℕ, ◌<◌, String, ◌≡◌, Bool, true, false, some, arith, ltb}
use pmi.Gateway.KeyExpiry.{
  KeyInfo, KeyExpirationManager, create_key, renew_key, is_expired, expiration_round,
}

-- A key that was created, and then renewed, is expired exactly after the renewed term, whatever
-- Redis holds; the renewal finds the key.
is_expired-renew_key :
    (add_days : ℕ → ℕ → ℕ) (exists_key : String → Bool) (created renewed now : ℕ)
    (key name : String) (ttl renewal ttl' : ℕ) (kem : KeyExpirationManager)
    → let made = create_key add_days created key name ttl renewal kem in
      let (kem', found) = renew_key add_days renewed key ttl' made in
      (found ≡ true)
      × (is_expired exists_key now key made ≡ ltb (add_days created ttl) now)
      × (is_expired exists_key now key kem' ≡ ltb (add_days renewed ttl') now)
unfolding create_key renew_key is_expired
is_expired-renew_key add_days exists_key created renewed now key name ttl renewal ttl' kem =
    ground arith

-- Without Redis, a key that has expired counts as expired; after a round of the expiration loop at
-- that time it counts, at every time, as not expired.
expired_key_revives :
    (exists_key : String → Bool) (now later : ℕ) (key : String) (info : KeyInfo)
    (kem : KeyExpirationManager)
    → kem.redis.connected ≡ false
    → kem.keys key ≡ some info
    → info.expires_at < now
    → (is_expired exists_key now key kem ≡ true)
      × (is_expired exists_key later key (expiration_round now kem) ≡ false)
unfolding is_expired expiration_round
expired_key_revives exists_key now later key info kem off e h = ground arith
