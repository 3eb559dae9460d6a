-- ===== src/Gateway/KeyExpiry.antt =====
-- gateway/keyquota.go: keys with an expiry. `add_days` is `Time.AddDate(0, 0, n)`; what Redis
-- answers to `Exists` is an argument, false for an error too.
mod Laws
mod Examples
use pmi.Base.{
  [], text_append, ℕ, ◌*◌, ◌/◌, String, Bool, true, false, not, none, some, ◌∷◌, ltb, if◌then◌else◌,
  StringMap, insert,
}
use pmi.Base.Redis
use pmi.Base.Redis.{Outbox, send}
use pmi.Gateway.RateLimit.{second}

pub record KeyInfo : Type 0 where
  pub key : String
  pub name : String
  pub created_at : ℕ
  pub expires_at : ℕ
  pub renewal_period : ℕ
  pub last_renewed : ℕ

pub record KeyExpirationManager : Type 0 where
  pub keys : StringMap KeyInfo
  pub redis : Outbox

abbrev days : ℕ → ℕ
days n = n * 24 * 3600 * second

expiry_key : String → String
expiry_key key = text_append "key:expiry:" key

module _ (add_days : ℕ → ℕ → ℕ) where
  pub create_key : ℕ → String → String → ℕ → ℕ → KeyExpirationManager → KeyExpirationManager
  create_key now key name ttl_days renewal_period kem =
      let expires = add_days now ttl_days in
      record {
        keys =
            insert key
              (record {
                key = key;
                name = name;
                created_at = now;
                expires_at = expires;
                renewal_period = renewal_period;
                last_renewed = now;
              })
              kem.keys;
        redis =
            send
              (Redis.set (expiry_key key)
                  (Redis.key_entry name expires renewal_period (now / second)) (days ttl_days)
                ∷ [])
              kem.redis;
      }

  -- false: the key is not found
  pub renew_key : ℕ → String → ℕ → KeyExpirationManager → KeyExpirationManager × Bool
  renew_key now key ttl_days kem = elim (kem.keys key) [
    | none ↦ (kem, false)
    | some info ↦ (
      record {
        keys =
            insert key (record info { expires_at = add_days now ttl_days; last_renewed = now })
              kem.keys;
        redis =
            send (Redis.set (expiry_key key) (Redis.text info.name) (days ttl_days) ∷ []) kem.redis;
      },
      true,
    )
  ]

pub is_expired : (String → Bool) → ℕ → String → KeyExpirationManager → Bool
is_expired exists_key now key kem = elim (kem.keys key) [
  | some info ↦ ltb info.expires_at now
  | none ↦ elim kem.redis.connected [ true ↦ not (exists_key (expiry_key key)) | false ↦ false ]
]

-- The zero time is 0.
get_expiry : String → KeyExpirationManager → ℕ
get_expiry key kem = elim (kem.keys key) [ none ↦ 0 | some info ↦ info.expires_at ]

-- one round of `expirationLoop`
pub expiration_round : ℕ → KeyExpirationManager → KeyExpirationManager
expiration_round now kem = record kem {
  keys = λ key. elim (kem.keys key) [
    | none ↦ none
    | some info ↦ if ltb info.expires_at now then none else some info
  ];
}
