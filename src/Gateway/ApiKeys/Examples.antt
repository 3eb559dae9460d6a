-- ===== src/Gateway/ApiKeys/Examples.antt =====
-- gateway/apikey.go: a store that is a function, and one key.
use pmi.Base.{
  ℕ, ◌+◌, ◌-◌, ◌*◌, ◌≤◌, leb, String, ◌≡◌, refl, ap, ◌∙◌, Option, true, false, none, arith, ite,
  if_pos, if◌then◌else◌, text_discrete,
}
use pmi.Base.Result.{ok}
use pmi.Gateway.ApiKeys.{
  KeyFields, KeyStore, TtlDays, days, days_ago, forever, no_fields, merge, never, create_key,
  validate_key, revoke_key, update_scope, is_valid_scope,
}
use pmi.Gateway.ApiKeys.Validity.{is_over, is_removed, validate_key-create_key, revoked_key_revives}

-- What a read at each time would find, if nothing more was done.
abbrev Hashes : Type 0
Hashes = ℕ → String → KeyFields

abbrev store : KeyStore Hashes
store = record {
  hset = λ t k f s u j. ite (text_discrete k j) (merge f (s u j)) (s u j);
  del = λ t k s u j. ite (text_discrete k j) no_fields (s u j);
  expire = λ t k ttl s u j.
      ite (text_discrete k j) (if leb (t + ttl) u then no_fields else s u j) (s u j);
  hget_all = λ u k s. s u k;
  hset_lem =
      λ t k f old s stays u le. if_pos (text_discrete k k) refl _ _ ∙ ap (merge f) (stays u le);
  del_lem = λ t k s u le. if_pos (text_discrete k k) refl _ _;
  expire_lem = λ t k ttl old s stays u le.
      if_pos (text_discrete k k) refl _ _
      ∙ ap (λ (f : KeyFields). if leb (t + ttl) u then no_fields else f) (stays u le);
}

abbrev hash_key : String → String
hash_key raw_key = raw_key

abbrev calendar : ℕ → TtlDays → ℕ
calendar now (days n) = now + n * 86400
calendar now (days_ago n) = now - n * 86400
calendar now forever = now

abbrev none_yet : Hashes
none_yet u k = no_fields

abbrev with_key : Hashes
with_key =
    (create_key store hash_key never calendar 86399 100 "raw" "ci" (days 1) "write" none_yet).0

validate_key-create_key_example :
    ((create_key store hash_key never calendar 86399 100 "raw" "ci" (days 1) "write" none_yet).1
      ≡ none)
    × ((validate_key store hash_key never 200 "raw" with_key).1
        ≡ ok (
            if is_removed 86399 100 200 (days 1)
            then ""
            else if is_over calendar 100 200 (days 1)
            then ""
            else if is_valid_scope "write"
            then "write"
            else "read"))
validate_key-create_key_example =
    validate_key-create_key store hash_key calendar 86399 100 200 "raw" "ci" "write" (days 1)
      none_yet (λ u le. refl) (omega arith)

abbrev revoked : Hashes
revoked = (revoke_key store hash_key false 300 "raw" with_key).0

revoked_key_revives_example :
    ((revoke_key store hash_key false 300 "raw" with_key).1 ≡ none)
    × ((validate_key store hash_key never 900 "raw" revoked).1 ≡ ok "")
    × ((update_scope store hash_key false 400 (hash_key "raw") "admin" revoked).1 ≡ none)
    × ((validate_key store hash_key never 900 "raw"
          (update_scope store hash_key false 400 (hash_key "raw") "admin" revoked).0).1
        ≡ ok "admin")
unfolding pmi.Gateway.ApiKeys.is_valid_scope pmi.Base.text_discrete
revoked_key_revives_example =
    revoked_key_revives store hash_key 300 400 900 "raw" "admin" with_key refl (omega arith)
      (omega arith)
