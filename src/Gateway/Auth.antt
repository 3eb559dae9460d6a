-- ===== src/Gateway/Auth.antt =====
-- gateway/service.go: who may use the proxy, and what a request's path says of its target. The API
-- keys are those of gateway/apikey.go; without the service for them no key is looked up. `fails`
-- has the errors of Redis while the key is looked up.
mod Guard
mod Examples
use Prim.Native.String.{slice, len}
use text.Mathlib.Text.{starts_with, find?}
use pmi.Base.{
  text_append, ℕ, ◌+◌, ◌-◌, String, Bool, true, false, ◌||◌, Option, none, some, ltb, if◌then◌else◌,
  ite, text_discrete,
}
use pmi.Base.Http.{Request, Reply, next, abort}
use pmi.Gateway.ApiKeys.{KeyStore, validate_key, scope_of, has_scope, scope_level}

-- What the middlewares leave for those after them, by `c.Set`.
pub record Context : Type 0 where
  pub api_key : Option String
  pub api_key_scope : Option String

abbrev pub no_context : Context
no_context = record { api_key = none; api_key_scope = none }

is : String → String → Bool
is path other = ite (text_discrete path other) true false

-- The paths that need no key.
pub is_public : String → Bool
unfolding is
is_public path =
    is path "/"
    || is path "/docs.html"
    || is path "/health"
    || is path "/metrics"
    || is path "/dashboard"
    || is path "/peer"
    || starts_with path "/peer/"
    || starts_with path "/api/"
    || is path "/favicon.ico"
    || is path "/ws"
    || is path "/v1/health"
    || is path "/v1/metrics"
    || is path "/v1/dashboard"
    || starts_with path "/v1/api/"

extract_bearer_token : String → String
extract_bearer_token auth =
    if starts_with auth "Bearer " then slice auth (len "Bearer ") (len auth) else ""

pub auth_header : Request → String
auth_header r = ite (text_discrete r.authorization "") r.proxy_authorization r.authorization

pub key_of : String → String
unfolding extract_bearer_token
key_of header =
    ite (text_discrete (extract_bearer_token header) "") header (extract_bearer_token header)

-- What a validated key leaves for the rest; a scope "" is that of a key that is not valid, or of an
-- error.
pub with_scope {ℓ} : {S : Type ℓ} → String → S × String → S × Context × Reply
with_scope key (s, scope) =
    ite (text_discrete scope "") (s, no_context, abort 401)
      (s, record { api_key = some key; api_key_scope = some scope }, next)

pub enough_scope : String → Option String → Reply
enough_scope min_scope none = abort 401
enough_scope min_scope (some scope) =
    ite (text_discrete scope "") (abort 401)
      (if ltb (scope_level scope) (scope_level min_scope) then abort 403 else next)

module _ {ℓ} {S : Type ℓ} (redis : KeyStore S) (hash_key : String → String) (has_service : Bool)
    (fails : ℕ → Bool) where
  pub check_key : ℕ → String → S → S × Context × Reply
  unfolding with_scope
  check_key now key s =
      let (s', result) = validate_key redis hash_key fails now key s in
      with_scope key (s', scope_of result)

  pub check_header : ℕ → String → S → S × Context × Reply
  unfolding check_key key_of
  check_header now header s =
      ite (text_discrete header "") (s, no_context, abort 401)
        (if has_service then check_key now (key_of header) s else (s, no_context, next))

  pub auth_middleware : ℕ → String → Request → S → S × Context × Reply
  unfolding is_public check_header auth_header
  auth_middleware now path r s =
      if is_public path then (s, no_context, next) else check_header now (auth_header r) s

  pub require_scope : ℕ → String → Context → S → S × Reply
  require_scope now required c s =
      if has_service
      then elim c.api_key [
        | none ↦ (s, abort 401)
        | some key ↦
            let (s', allowed) = has_scope redis hash_key fails now key required s in
            (s', if allowed then next else abort 403)
      ]
      else (s, next)

  pub require_min_scope : String → Context → Reply
  unfolding enough_scope
  require_min_scope min_scope c =
      if has_service then enough_scope min_scope c.api_key_scope else next

  pub min_scope_of : S × Context × Reply → S × Reply
  unfolding require_min_scope
  min_scope_of (s, c, next) = (s, require_min_scope "read" c)
  min_scope_of (s, c, abort status) = (s, abort status)

  -- The middlewares that a request on a route of the proxy passes in `setupRoutes`, in order: the
  -- rate limiter, of which `limited` is the reply, the authentication and the least scope. Those
  -- for ids, logs and traces pass every request on. The reply is that of the first that aborts.
  pub proxy_guard : Reply → ℕ → String → Request → S → S × Reply
  unfolding auth_middleware min_scope_of
  proxy_guard limited now path r s = elim limited [
    | abort status ↦ (s, abort status)
    | next ↦ min_scope_of (auth_middleware now path r s)
  ]

-- The text behind a prefix up to "-", where the path has the prefix.
until_dash : String → String
until_dash rest = elim (find? rest "-") [ none ↦ rest | some i ↦ slice rest 0 i ]

behind : String → String → Option String
behind prefix path = elim (find? path prefix) [
  | none ↦ none
  | some i ↦ some (slice path (i + len prefix) (len path))
]

-- `query` is the value of the query's parameter.
extract_target : String → String → String → String
unfolding until_dash behind
extract_target target_type path query = elim (behind (text_append target_type "-") path) [
  | none ↦ query
  | some rest ↦ until_dash rest
]

until_dash_or_slash : String → String
until_dash_or_slash rest = elim (find? rest "-") [
  | some i ↦ slice rest 0 i
  | none ↦ elim (find? rest "/") [ none ↦ rest | some i ↦ slice rest 0 i ]
]

pub extract_session_from_path : String → String
unfolding behind until_dash_or_slash
extract_session_from_path path = elim (behind "session-" path) [
  | none ↦ ""
  | some rest ↦ until_dash_or_slash rest
]

trim_prefix : String → String → String
trim_prefix prefix s = if starts_with s prefix then slice s (len prefix) (len s) else s

cut : String → String → String
cut mark s = elim (find? s mark) [ none ↦ s | some i ↦ slice s 0 i ]

extract_host_from_target : String → String
unfolding trim_prefix cut
extract_host_from_target target =
    cut "?" (cut "/" (trim_prefix "https://" (trim_prefix "http://" target)))
