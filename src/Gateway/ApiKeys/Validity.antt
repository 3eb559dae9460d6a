-- ===== src/Gateway/ApiKeys/Validity.antt =====
-- gateway/apikey.go: for how long a key is valid.
use pmi.Base.{
  ltb, leb, ◌+◌, ◌≤◌, ℕ, String, ◌≡◌, refl, ap, ◌∙◌, Bool, true, false, Option, none, some,
  if◌then◌else◌, arith,
}
use pmi.Base.Result.{Result, ok}
use pmi.Gateway.ApiKeys.{
  KeyFields, KeyStore, TtlDays, days, days_ago, forever, no_fields, or_old, new_fields, merge,
  is_missing, is_expired, expiry, granted_scope, is_valid_scope, redis_key, text_of, with_expiry,
  never, create_key, validate_key, revoke_key, update_scope,
}

or_old-none : (o : Option ℕ) → or_old o none ≡ o
or_old-none none = refl
or_old-none (some a) = refl

-- The days that a key is made for are over.
abbrev pub is_over : (ℕ → TtlDays → ℕ) → ℕ → ℕ → TtlDays → Bool
is_over calendar now later forever = false
is_over calendar now later (days n) = ltb (calendar now (days n)) later
is_over calendar now later (days_ago n) = ltb (calendar now (days_ago n)) later

-- Redis has removed a key that was to expire after so many seconds.
abbrev pub is_removed : ℕ → ℕ → ℕ → TtlDays → Bool
is_removed left now later forever = false
is_removed left now later (days n) = leb (now + left) later
is_removed left now later (days_ago n) = false

is_expired-expiry :
    (calendar : ℕ → TtlDays → ℕ) (now later : ℕ) (ttl : TtlDays)
    → is_expired later (expiry calendar now ttl) ≡ is_over calendar now later ttl
unfolding is_expired expiry
is_expired-expiry calendar now later forever = refl
is_expired-expiry calendar now later (days n) = refl
is_expired-expiry calendar now later (days_ago n) = refl

module _ {ℓ} {S : Type ℓ} (redis : KeyStore S) (hash_key : String → String) where
  -- The scope that `ValidateKey` finds in the fields.
  answer : ℕ → KeyFields → String
  answer now fields =
      if is_missing fields
      then ""
      else if is_expired now fields.expires_at
      then ""
      else text_of fields.scope

  second_of :
      (b c : Bool) (x y z : S) (scope : String)
      → (if◌then◌else◌ {A = S × Result String} b
          (x, ok "")
          (if c then (y, ok "") else (z, ok scope))).1
        ≡ ok (if b then "" else if c then "" else scope)
  second_of true c x y z scope = refl
  second_of false true x y z scope = refl
  second_of false false x y z scope = refl

  validate_lem :
      (now : ℕ) (raw_key : String) (s : S)
      → (validate_key redis hash_key never now raw_key s).1
        ≡ ok (answer now (redis.hget_all now (redis_key (hash_key raw_key)) s))
  unfolding validate_key answer
  validate_lem now raw_key s =
      let key = redis_key (hash_key raw_key) in
      let fields = redis.hget_all now key s in
      second_of (is_missing fields) (is_expired now fields.expires_at) s (redis.del now key s) _
        (text_of fields.scope)

  -- What a read finds after the call of `Expire`.
  with_expiry_lem :
      (left now : ℕ) (key : String) (ttl : TtlDays) (old : KeyFields) (s : S)
      → ((u : ℕ) → now ≤ u → redis.hget_all u key s ≡ old)
      → (later : ℕ) → now ≤ later
      → redis.hget_all later key (with_expiry redis hash_key false key now left ttl s)
        ≡ (if is_removed left now later ttl then no_fields else old)
  unfolding with_expiry
  with_expiry_lem left now key (days n) old s stays later le =
      redis.expire_lem now key left old s stays later le
  with_expiry_lem left now key (days_ago n) old s stays later le = stays later le
  with_expiry_lem left now key forever old s stays later le = stays later le

  answer_new :
      (calendar : ℕ → TtlDays → ℕ) (now later : ℕ) (name scope : String) (ttl : TtlDays)
      → answer later (merge (new_fields calendar now name ttl scope) no_fields) ≡ (
          if is_over calendar now later ttl
          then ""
          else if is_valid_scope scope
          then scope
          else "read")
  unfolding new_fields answer is_missing pmi.Gateway.ApiKeys.is_absent text_of granted_scope
  answer_new calendar now later name scope ttl =
      ap (λ (b : Bool). if b then "" else if is_valid_scope scope then scope else "read")
        (ap (is_expired later) (or_old-none (expiry calendar now ttl))
          ∙ is_expired-expiry calendar now later ttl)

  answer_removed :
      (removed over : Bool) (later : ℕ) (fields : KeyFields) (scope : String)
      → answer later fields ≡ (if over then "" else scope)
      → answer later (if removed then no_fields else fields)
        ≡ (if removed then "" else if over then "" else scope)
  unfolding answer is_missing pmi.Gateway.ApiKeys.is_absent
  answer_removed true over later fields scope e = refl
  answer_removed false over later fields scope e = e

  -- Where no command fails, making a key whose hash is not in use succeeds, and the key has, at any
  -- time from then on, the scope it was made with, or "read" for a scope that does not exist, until
  -- the day it was given is over or Redis has removed it after the seconds it was sent; then it has
  -- none. A key made for ever has it always.
  pub validate_key-create_key :
      (calendar : ℕ → TtlDays → ℕ) (left now later : ℕ) (raw_key name scope : String)
      (ttl : TtlDays) (s : S)
      → ((u : ℕ) → now ≤ u → redis.hget_all u (redis_key (hash_key raw_key)) s ≡ no_fields)
      → now ≤ later
      → let (s', error) =
          create_key redis hash_key never calendar left now raw_key name ttl scope s in
        (error ≡ none)
        × ((validate_key redis hash_key never later raw_key s').1
            ≡ ok (
                if is_removed left now later ttl
                then ""
                else if is_over calendar now later ttl
                then ""
                else if is_valid_scope scope
                then scope
                else "read"))
  unfolding create_key
  validate_key-create_key calendar left now later raw_key name scope ttl s fresh le =
      let key = redis_key (hash_key raw_key) in
      let fields = new_fields calendar now name ttl scope in
      let (s', error) =
        create_key redis hash_key never calendar left now raw_key name ttl scope s in
      let read =
        with_expiry_lem left now key ttl (merge fields no_fields) (redis.hset now key fields s)
          (redis.hset_lem now key fields no_fields s fresh) later le in
      (
        refl,
        validate_lem later raw_key s'
            ∙ ap (λ (f : KeyFields). ok (answer later f)) read
            ∙ ap ok (
                answer_removed (is_removed left now later ttl) (is_over calendar now later ttl)
                  later (merge fields no_fields) _ (answer_new calendar now later name scope ttl)),
      )

  -- Where no command fails, a key that was revoked has no scope from then on; but when
  -- `UpdateScope` is later called for its hash with a scope that exists, it succeeds, and the key
  -- has that scope at every time after, whatever its expiry was.
  pub revoked_key_revives :
      (revoked updated now : ℕ) (raw_key new_scope : String) (s : S)
      → is_valid_scope new_scope ≡ true
      → revoked ≤ updated
      → updated ≤ now
      → let (gone, error) = revoke_key redis hash_key false revoked raw_key s in
        let (s', error') =
          update_scope redis hash_key false updated (hash_key raw_key) new_scope gone in
        (error ≡ none)
        × ((validate_key redis hash_key never now raw_key gone).1 ≡ ok "")
        × (error' ≡ none)
        × ((validate_key redis hash_key never now raw_key s').1 ≡ ok new_scope)
  unfolding update_scope revoke_key answer is_missing pmi.Gateway.ApiKeys.is_absent text_of
      is_expired
  revoked_key_revives revoked updated now raw_key new_scope s valid le le' =
      let key = redis_key (hash_key raw_key) in
      let gone = redis.del revoked key s in
      let fields : KeyFields = record no_fields { scope = some new_scope } in
      let absent : (u : ℕ) → updated ≤ u → redis.hget_all u key gone ≡ no_fields =
        λ u h. redis.del_lem revoked key s u (omega arith) in
      (
        refl,
        validate_lem now raw_key gone
            ∙ ap (λ (f : KeyFields). ok (answer now f))
                (redis.del_lem revoked key s now (omega arith)),
        rw valid refl,
        rw valid (
            validate_lem now raw_key (redis.hset updated key fields gone)
            ∙ ap (λ (f : KeyFields). ok (answer now f))
                (redis.hset_lem updated key fields no_fields gone absent now le')),
      )
