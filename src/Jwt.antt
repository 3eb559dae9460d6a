-- ===== src/Jwt.antt =====
-- jwt/service.go and jwt/middleware.go: tokens with roles. The library that signs and parses
-- tokens is a parameter, as are the random bytes: a secret and the ids of tokens are arguments.
-- Times are in seconds, to which the library cuts them.
mod Guarded
mod Examples
use Prim.Native.String.{slice, len}
use text.Mathlib.Text.{starts_with}
use pmi.Base.{
  ℕ, ◌+◌, ◌≤◌, ◌<◌, String, ◌≡◌, ◌≢◌, Bool, true, false, ◌||◌, Option, none, some, List, [], ◌∷◌,
  if◌then◌else◌, ite, text_discrete,
}
use pmi.Base.Result.{Result, ok, err}
use pmi.Base.Http.{Reply, next, abort}

pub record Claims : Type 0 where
  pub id : String
  pub issued_at : ℕ
  pub expires_at : ℕ
  pub issuer : String
  pub user_id : String
  pub roles : List String
  pub api_keys : List String
  pub node_id : String

-- What `ParseWithClaims` finds for an HMAC token: the claims, an error "token is expired", or
-- another.
pub data Parsed : Type 0 where
  parsed : Claims → Parsed
  expired : Parsed
  malformed : Parsed

-- The library: signing with HS256 under a secret, and parsing under a secret at a time.
pub record JwtLibrary : Type 0 where
  pub sign : String → Claims → String
  pub parse : String → ℕ → String → Parsed

-- What the library's documentation says of claims: their token parses under the secret that it was
-- signed with until it expires.
pub record Signs (jwt : JwtLibrary) (secret : String) (claims : Claims) : Type 0 where
  pub valid :
      (now : ℕ)
      → now < claims.expires_at
      → jwt.parse secret now (jwt.sign secret claims) ≡ parsed claims
  pub over :
      (now : ℕ) → claims.expires_at ≤ now → jwt.parse secret now (jwt.sign secret claims) ≡ expired

pub record JwtService : Type 0 where
  pub secret_key : String
  pub expiration : ℕ
  pub issuer : String

-- `generated` is the random secret, used where none is configured.
new_jwt_service : String → String → ℕ → JwtService
new_jwt_service generated secret expiration = record {
  secret_key = ite (text_discrete secret "") generated secret;
  expiration = expiration;
  issuer = "proxymesh";
}

has : String → List String → Bool
has role [] = false
has role (r ∷ roles) = ite (text_discrete r role) true (has role roles)

is_admin_role : String → Bool
is_admin_role role =
    ite (text_discrete role "superadmin") true
      (ite (text_discrete role "admin") true (ite (text_discrete role "operator") true false))

admin_among : List String → Bool
unfolding is_admin_role
admin_among [] = false
admin_among (role ∷ roles) = is_admin_role role || admin_among roles

is_admin : Claims → Bool
unfolding admin_among
is_admin claims = admin_among claims.roles

has_role : Claims → String → Bool
unfolding has
has_role claims role = has role claims.roles

pub record TokenInfo : Type 0 where
  pub user_id : String
  pub roles : List String
  pub issued_at : ℕ
  pub expires : ℕ
  pub node_id : String

pub record TokenResponse : Type 0 where
  pub access_token : String
  pub refresh_token : String
  pub token_type : String
  pub expires_in : ℕ

-- What the middlewares set in the context of a request.
pub record Identity : Type 0 where
  pub user_id : String
  pub roles : List String
  pub api_keys : List String
  pub node_id : String
  is_admin : Bool

module _ (jwt : JwtLibrary) where
  abbrev pub claims_at :
      ℕ → String → String → List String → List String → String → JwtService → Claims
  claims_at now token_id user_id roles api_keys node_id s = record {
    id = token_id;
    issued_at = now;
    expires_at = now + s.expiration;
    issuer = s.issuer;
    user_id = user_id;
    roles = roles;
    api_keys = api_keys;
    node_id = node_id;
  }

  pub generate_token :
      ℕ → String → String → List String → List String → String → JwtService → String
  generate_token now token_id user_id roles api_keys node_id s =
      jwt.sign s.secret_key (claims_at now token_id user_id roles api_keys node_id s)

  pub validate_token : ℕ → String → JwtService → Result Claims
  validate_token now token s = elim (jwt.parse s.secret_key now token) [
    | parsed claims ↦ ok claims
    | expired ↦ err "token expired"
    | malformed ↦ err "invalid token"
  ]

  pub refresh_token : ℕ → String → String → JwtService → Result String
  unfolding validate_token generate_token
  refresh_token now token_id token s = elim (validate_token now token s) [
    | err e ↦ err e
    | ok claims ↦
        ok
          (generate_token now token_id claims.user_id claims.roles claims.api_keys claims.node_id s)
  ]

  generate_api_key_token : ℕ → String → String → String → JwtService → String
  unfolding generate_token
  generate_api_key_token now token_id api_key user_id s =
      generate_token now token_id user_id ("api" ∷ []) (api_key ∷ []) "" s

  generate_admin_token : ℕ → String → String → List String → JwtService → String
  unfolding generate_token
  generate_admin_token now token_id user_id roles s =
      generate_token now token_id user_id roles [] "" s

  generate_peer_token : ℕ → String → String → JwtService → String
  unfolding generate_token
  generate_peer_token now token_id node_id s =
      generate_token now token_id node_id ("peer" ∷ []) [] node_id s

  parse_token_info : ℕ → String → JwtService → Result TokenInfo
  unfolding validate_token
  parse_token_info now token s = elim (validate_token now token s) [
    | err e ↦ err e
    | ok claims ↦ ok (record {
      user_id = claims.user_id;
      roles = claims.roles;
      issued_at = claims.issued_at;
      expires = claims.expires_at;
      node_id = claims.node_id;
    })
  ]

  generate_token_response :
      ℕ → String → String → String → List String → List String → String → JwtService → TokenResponse
  unfolding generate_token
  generate_token_response now access_id refresh_id user_id roles api_keys node_id s = record {
    access_token = generate_token now access_id user_id roles api_keys node_id s;
    refresh_token = generate_token now refresh_id user_id roles api_keys node_id s;
    token_type = "Bearer";
    expires_in = s.expiration;
  }

  -- `strings.TrimPrefix(header, "Bearer ")`
  bare_token : String → String
  bare_token header =
      if starts_with header "Bearer " then slice header (len "Bearer ") (len header) else header

  header_of : String → String → String
  header_of authorization peer_token = ite (text_discrete authorization "") peer_token authorization

  identity_of : Claims → Identity
  unfolding is_admin
  identity_of claims = record {
    user_id = claims.user_id;
    roles = claims.roles;
    api_keys = claims.api_keys;
    node_id = claims.node_id;
    is_admin = is_admin claims;
  }

  -- The identity that is set, if any, and the reply.
  pub jwt_auth_middleware : ℕ → String → String → JwtService → Option Identity × Reply
  unfolding header_of bare_token validate_token identity_of
  jwt_auth_middleware now authorization peer_token s =
      let header = header_of authorization peer_token in
      ite (text_discrete header "") (none, abort 401)
        (elim (validate_token now (bare_token header) s) [
          | err e ↦ (none, abort 401)
          | ok claims ↦ (some (identity_of claims), next)
        ])

  optional_jwt_auth : ℕ → String → String → JwtService → Option Identity × Reply
  unfolding header_of bare_token validate_token identity_of
  optional_jwt_auth now authorization peer_token s =
      let header = header_of authorization peer_token in
      ite (text_discrete header "") (none, next)
        (elim (validate_token now (bare_token header) s) [
          | err e ↦ (none, next)
          | ok claims ↦ (some (identity_of claims), next)
        ])

-- The loop over the roles that are asked for.
any_role : List String → List String → Bool
unfolding has
any_role [] user_roles = false
any_role (required ∷ roles) user_roles =
    if has required user_roles then true else any_role roles user_roles

pub require_role : List String → Option Identity → Reply
unfolding any_role
require_role roles none = abort 401
require_role roles (some identity) = if any_role roles identity.roles then next else abort 403
