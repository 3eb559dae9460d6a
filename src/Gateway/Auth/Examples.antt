-- ===== src/Gateway/Auth/Examples.antt =====
-- gateway/service.go: a request with a key for writing, and paths with targets.
use pmi.Base.{
  ℕ, ◌+◌, ◌-◌, ◌*◌, ◌≤◌, leb, if◌then◌else◌, ap, ◌∙◌, String, ◌≡◌, ◌≢◌, ◌↔◌, refl, true, false,
  none, some, ite, if_pos, if_neg, text_discrete,
}
use pmi.Base.Http.{Request, Reply, next}
use pmi.Gateway.ApiKeys.{
  KeyFields, KeyStore, TtlDays, days, days_ago, forever, no_fields, merge, never, create_key,
  validate_key, scope_of, scope_level,
}
use pmi.Gateway.Auth.{
  is_public, auth_header, key_of, proxy_guard, auth_middleware, no_context, require_scope,
  extract_target, extract_session_from_path, extract_host_from_target,
}
use pmi.Gateway.Auth.Guard.{reaches_proxy_iff}

-- What a read at each time would find, if nothing more was done.
abbrev Hashes : Type 0
Hashes = ℕ → String → KeyFields

abbrev store : KeyStore Hashes
store = record {
  hset = λ t k f s u j. ite (text_discrete k j) (merge f (s u j)) (s u j);
  del = λ t k s u j. ite (text_discrete k j) no_fields (s u j);
  expire = λ t k ttl s u j.
      ite (text_discrete k j) (if leb (t + ttl) u then no_fields else s u j) (s u j);
  hget_all = λ u k s. s u k;
  hset_lem =
      λ t k f old s stays u le. if_pos (text_discrete k k) refl _ _ ∙ ap (merge f) (stays u le);
  del_lem = λ t k s u le. if_pos (text_discrete k k) refl _ _;
  expire_lem = λ t k ttl old s stays u le.
      if_pos (text_discrete k k) refl _ _
      ∙ ap (λ (f : KeyFields). if leb (t + ttl) u then no_fields else f) (stays u le);
}

abbrev hash_key : String → String
hash_key raw_key = raw_key

abbrev calendar : ℕ → TtlDays → ℕ
calendar now (days n) = now + n * 86400
calendar now (days_ago n) = now - n * 86400
calendar now forever = now

abbrev none_yet : Hashes
none_yet u k = no_fields

abbrev with_key : Hashes
with_key =
    (create_key store hash_key never calendar 86399 100 "raw" "ci" (days 1) "write" none_yet).0

abbrev request : Request
request = record { client_ip = "10.0.0.1"; authorization = "Bearer raw"; proxy_authorization = "" }

reaches_proxy_iff_example :
    ((proxy_guard store hash_key true never next 200 "/region-eu" request with_key).1 ≡ next) ↔ (
      (◌≡◌ {A = Reply} next next)
      × (is_public "/region-eu" ≡ false)
      × (auth_header request ≢ "")
      × (1
          ≤ scope_level (
              scope_of
                (validate_key store hash_key never 200 (key_of (auth_header request)) with_key).1)))
reaches_proxy_iff_example =
    reaches_proxy_iff store hash_key never next 200 "/region-eu" request with_key

key_of_runs : key_of "Bearer raw" ≡ "raw"
unfolding pmi.Gateway.Auth.key_of pmi.Gateway.Auth.extract_bearer_token pmi.Base.text_discrete
key_of_runs = refl

public_paths : (is_public "/v1/api/nodes" ≡ true) × (is_public "/region-eu" ≡ false)
unfolding pmi.Gateway.Auth.is_public pmi.Base.text_discrete
public_paths = (refl, refl)

target_of_a_path : extract_target "region" "region-eu-session-a1" "us" ≡ "eu"
unfolding pmi.Gateway.Auth.extract_target
target_of_a_path = refl

session_of_a_path : extract_session_from_path "region-eu-session-a1/x" ≡ "a1"
unfolding pmi.Gateway.Auth.extract_session_from_path
session_of_a_path = refl

host_of_a_target : extract_host_from_target "https://example.org/a?b" ≡ "example.org"
unfolding pmi.Gateway.Auth.extract_host_from_target
host_of_a_target = refl
