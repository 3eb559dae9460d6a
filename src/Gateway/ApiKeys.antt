-- ===== src/Gateway/ApiKeys.antt =====
-- gateway/apikey.go: API keys, kept in Redis under their hashes. Redis is a store with the commands
-- that the code calls; `hash_key` is the hash in hexadecimal, and a new raw key is an argument.
-- Times are in seconds. Each call has the errors of its commands: `fails i` says whether its i-th
-- command fails, which is taken to change nothing.
mod Validity
mod Scopes
mod Examples
use pmi.Base.{
  text_append, ℕ, ◌+◌, ◌-◌, ◌*◌, ◌≡◌, ◌≢◌, String, Bool, true, false, ◌&&◌, not, ◌≤◌, Option, none,
  some, ltb, leb, if◌then◌else◌, ite, text_discrete,
}
use pmi.Base.Result.{Result, ok, err}

-- The fields that the code writes to a hash, or reads of it; a hash with none does not exist.
pub record KeyFields : Type 0 where
  pub name : Option String
  pub scope : Option String
  pub created_at : Option ℕ
  pub expires_at : Option ℕ
  pub last_used : Option ℕ

abbrev pub no_fields : KeyFields
no_fields = record {
  name = none;
  scope = none;
  created_at = none;
  expires_at = none;
  last_used = none;
}

abbrev pub or_old {ℓ} : {A : Type ℓ} → Option A → Option A → Option A
or_old none old = old
or_old (some a) old = some a

-- What `HSET` leaves of a hash.
abbrev pub merge : KeyFields → KeyFields → KeyFields
merge f old = record {
  name = or_old f.name old.name;
  scope = or_old f.scope old.scope;
  created_at = or_old f.created_at old.created_at;
  expires_at = or_old f.expires_at old.expires_at;
  last_used = or_old f.last_used old.last_used;
}

-- Redis, as its documentation has it, with the time of each command: a hash that would stay as it
-- is has, after `HSET`, the fields set over those; after `DEL` there is none; and after `EXPIRE`
-- it stays until its time is over, and then there is none.
pub record KeyStore {ℓ} (S : Type ℓ) : Type ℓ where
  pub hset : ℕ → String → KeyFields → S → S
  pub del : ℕ → String → S → S
  pub expire : ℕ → String → ℕ → S → S
  pub hget_all : ℕ → String → S → KeyFields
  pub hset_lem :
      (t : ℕ) (k : String) (f old : KeyFields) (s : S)
      → ((u : ℕ) → t ≤ u → hget_all u k s ≡ old)
      → (u : ℕ) → t ≤ u
      → hget_all u k (hset t k f s) ≡ merge f old
  pub del_lem : (t : ℕ) (k : String) (s : S) (u : ℕ) → t ≤ u → hget_all u k (del t k s) ≡ no_fields
  pub expire_lem :
      (t : ℕ) (k : String) (ttl : ℕ) (old : KeyFields) (s : S)
      → ((u : ℕ) → t ≤ u → hget_all u k s ≡ old)
      → (u : ℕ) → t ≤ u
      → hget_all u k (expire t k ttl s) ≡ (if leb (t + ttl) u then no_fields else old)

pub is_valid_scope : String → Bool
is_valid_scope scope = ite (text_discrete scope "read") true (
    ite (text_discrete scope "write") true
      (ite (text_discrete scope "admin") true (ite (text_discrete scope "*") true false)))

unfoldable pub scope_level : String → ℕ
scope_level scope = ite (text_discrete scope "read") 1 (
    ite (text_discrete scope "write") 2
      (ite (text_discrete scope "admin") 3 (ite (text_discrete scope "*") 99 0)))

-- `ttlDays`: positive, negative or 0.
pub data TtlDays : Type 0 where
  days : ℕ → TtlDays
  days_ago : ℕ → TtlDays
  forever : TtlDays

-- `calendar` is `AddDate` with those days.
pub expiry : (ℕ → TtlDays → ℕ) → ℕ → TtlDays → Option ℕ
expiry calendar now forever = none
expiry calendar now (days n) = some (calendar now (days n))
expiry calendar now (days_ago n) = some (calendar now (days_ago n))

pub granted_scope : String → String
unfolding is_valid_scope
granted_scope scope = if is_valid_scope scope then scope else "read"

new_fields : (ℕ → TtlDays → ℕ) → ℕ → String → TtlDays → String → KeyFields
unfolding granted_scope expiry
new_fields calendar now name ttl scope = record {
  name = some name;
  scope = some (granted_scope scope);
  created_at = some now;
  expires_at = expiry calendar now ttl;
  last_used = none;
}

pub redis_key : String → String
redis_key hash = text_append "apikey:" hash

text_of : Option String → String
text_of none = ""
text_of (some s) = s

is_absent {ℓ} : {A : Type ℓ} → Option A → Bool
is_absent none = true
is_absent (some a) = false

-- `len(data) == 0`
is_missing : KeyFields → Bool
unfolding is_absent
is_missing fields =
    is_absent fields.name
    && is_absent fields.scope
    && is_absent fields.created_at
    && is_absent fields.expires_at
    && is_absent fields.last_used

pub is_expired : ℕ → Option ℕ → Bool
is_expired now none = false
is_expired now (some expires_at) = ltb expires_at now

-- The scope, "" for an error.
pub scope_of : Result String → String
scope_of (err e) = ""
scope_of (ok scope) = scope

-- No command fails.
abbrev pub never : ℕ → Bool
never i = false

module _ {ℓ} {S : Type ℓ} (redis : KeyStore S) (hash_key : String → String) where
  -- The call of `Expire` that follows for a positive `ttlDays`; its error is dropped.
  with_expiry : Bool → String → ℕ → ℕ → TtlDays → S → S
  with_expiry fails key now left (days n) s = if fails then s else redis.expire now key left s
  with_expiry fails key now left (days_ago n) s = s
  with_expiry fails key now left forever s = s

  -- The error, none for nil. `left` is `time.Until` of the expiry, cut to the seconds that Redis is
  -- sent.
  pub create_key :
      (ℕ → Bool)
      → (ℕ → TtlDays → ℕ)
      → ℕ
      → ℕ
      → String
      → String
      → TtlDays
      → String
      → S
      → S × Option String
  unfolding new_fields redis_key with_expiry
  create_key fails calendar left now raw_key name ttl scope s =
      let key = redis_key (hash_key raw_key) in
      if fails 0 then (s, some "redis") else (
        with_expiry (fails 1) key now left ttl
            (redis.hset now key (new_fields calendar now name ttl scope) s),
        none,
      )

  -- The scope of the key, "" if it is not valid; the errors of `Del` and `HSet` are dropped.
  pub validate_key : (ℕ → Bool) → ℕ → String → S → S × Result String
  unfolding is_missing is_expired text_of redis_key
  validate_key fails now raw_key s =
      let key = redis_key (hash_key raw_key) in
      let fields = redis.hget_all now key s in
      if fails 0
      then (s, err "redis")
      else if is_missing fields
      then (s, ok "")
      else if is_expired now fields.expires_at
      then (if fails 1 then s else redis.del now key s, ok "")
      else (
        if fails 1
            then s
            else redis.hset now (text_append key ":meta")
                (record no_fields { last_used = some now }) s,
        ok (text_of fields.scope),
      )

  pub revoke_key : Bool → ℕ → String → S → S × Option String
  unfolding redis_key
  revoke_key fails now raw_key s =
      if fails then (s, some "redis") else (redis.del now (redis_key (hash_key raw_key)) s, none)

  pub update_scope : Bool → ℕ → String → String → S → S × Option String
  unfolding is_valid_scope redis_key
  update_scope fails now hash new_scope s =
      if not (is_valid_scope new_scope)
      then (s, some "invalid scope")
      else if fails
      then (s, some "redis")
      else (redis.hset now (redis_key hash) (record no_fields { scope = some new_scope }) s, none)

  -- Of the state, what `ValidateKey` leaves.
  pub has_scope : (ℕ → Bool) → ℕ → String → String → S → S × Bool
  unfolding scope_of
  has_scope fails now raw_key required s =
      let (s', result) = validate_key fails now raw_key s in
      let scope = scope_of result in
      (
        s',
        ite (text_discrete scope "") false
            (ite (text_discrete scope "*") true (ite (text_discrete scope required) true false)),
      )

  pub has_min_scope : (ℕ → Bool) → ℕ → String → String → S → S × Bool
  unfolding scope_level scope_of
  has_min_scope fails now raw_key min_scope s =
      let (s', result) = validate_key fails now raw_key s in
      let scope = scope_of result in
      (
        s',
        ite (text_discrete scope "") false
            (ite (text_discrete scope "*") true (leb (scope_level min_scope) (scope_level scope))),
      )
