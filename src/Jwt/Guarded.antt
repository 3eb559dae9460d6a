-- ===== src/Jwt/Guarded.antt =====
-- jwt/service.go and jwt/middleware.go: how long a token opens what its roles allow.
use text.Mathlib.Text.{starts_with}
use pmi.Base.{
  ℕ, ◌+◌, ◌≤◌, ◌<◌, String, text_append, ◌≡◌, ◌≢◌, ◌↔◌, refl, sym, ap, ◌∙◌, true, false, Option,
  none, some, List, [], ◌∷◌, arith, if_pos, if_neg, text_discrete, dec_lt, Bool-cases, inl, inr,
  subst,
}
use text.Mathlib.TextPositions.{starts_with-append, len-append, slice-append_right}
use mathlib.Core.List.{Memᴰ}
use pmi.Base.Result.{ok, err}
use pmi.Base.Http.{Reply, next, abort}
use pmi.Jwt.{
  JwtLibrary, Signs, JwtService, Identity, has, claims_at, generate_token, validate_token,
  refresh_token, bare_token, header_of, identity_of, jwt_auth_middleware, any_role, require_role,
}

-- A role that is asked for is among those of the user.
abbrev pub Shared : List String → List String → Type 0
Shared required roles = (role : String) × Memᴰ role required × Memᴰ role roles

has_tail :
    (role r : String) (roles : List String) → r ≢ role → Memᴰ role (r ∷ roles) → Memᴰ role roles
has_tail role r roles ne (Memᴰ.head p) = absurd (ne (sym p))
has_tail role r roles ne (Memᴰ.tail m) = m

has_iff : (role : String) (roles : List String) → (has role roles ≡ true) ↔ Memᴰ role roles
unfolding has
has_iff role [] = (λ h. cc, λ m. elim m [ ])
has_iff role (r ∷ roles) = elim (text_discrete r role) [
  | yes e ↦ (λ h. Memᴰ.head (sym e), λ m. if_pos (text_discrete r role) e _ _)
  | no ne ↦
      let skipped = if_neg (text_discrete r role) ne true (has role roles) in
      let later = has_iff role roles in
      (
        λ h. Memᴰ.tail (later.0 (sym skipped ∙ h)),
        λ m. skipped ∙ later.1 (has_tail role r roles ne m),
      )
]

shared_later :
    (r : String) (required roles : List String)
    → has r roles ≡ false
    → Shared (r ∷ required) roles
    → Shared required roles
shared_later r required roles not_had (role, Memᴰ.head p, m) =
    absurd (cc ((has_iff r roles).1 (subst (λ x. Memᴰ x roles) p m)))
shared_later r required roles not_had (role, Memᴰ.tail m', m) = (role, m', m)

any_role_iff :
    (required roles : List String) → (any_role required roles ≡ true) ↔ Shared required roles
unfolding any_role
any_role_iff [] roles = (λ h. cc, λ (role, m, m'). elim m [ ])
any_role_iff (r ∷ required) roles = elim (Bool-cases (has r roles)) [
  | inl had ↦ (λ h. (r, Memᴰ.head refl, (has_iff r roles).0 had), λ m. rw had refl)
  | inr not_had ↦
      let later = any_role_iff required roles in
      (
        λ h. let (role, m, m') = later.0 (rw not_had at h) in (role, Memᴰ.tail m, m'),
        λ m. rw not_had (later.1 (shared_later r required roles not_had m)),
      )
]

require_role_iff :
    (required : List String) (identity : Identity)
    → (require_role required (some identity) ≡ next) ↔ Shared required identity.roles
unfolding require_role
require_role_iff required identity =
    let any = any_role_iff required identity.roles in
    elim (Bool-cases (any_role required identity.roles)) [
      | inl e ↦ (λ h. any.0 e, λ m. rw e refl)
      | inr e ↦ (λ h. ground arith, λ m. cc (any.1 m))
    ]

module _ (jwt : JwtLibrary) where
  bare_token_prefixed : (token : String) → bare_token jwt (text_append "Bearer " token) ≡ token
  unfolding bare_token
  bare_token_prefixed token =
      rw (starts_with-append "Bearer " token, len-append "Bearer " token)
        (slice-append_right "Bearer " token)

  bearer_not_empty : (token : String) → text_append "Bearer " token ≢ ""
  bearer_not_empty token e =
      cc (sym (starts_with-append "Bearer " token) ∙ ap (λ t. starts_with t "Bearer ") e)

  header_of_bearer :
      (token : String)
      → header_of jwt (text_append "Bearer " token) "" ≡ text_append "Bearer " token
  unfolding header_of
  header_of_bearer token =
      if_neg (text_discrete (text_append "Bearer " token) "") (bearer_not_empty token) _ _

  middleware_bearer :
      (now : ℕ) (token : String) (s : JwtService)
      → jwt_auth_middleware jwt now (text_append "Bearer " token) "" s
        ≡ (elim (validate_token jwt now token s) [
          | err e ↦ (none, abort 401)
          | ok claims ↦ (some (identity_of jwt claims), next)
        ])
  unfolding jwt_auth_middleware
  middleware_bearer now token s =
      let found =
        if_neg (text_discrete (text_append "Bearer " token) "") (bearer_not_empty token) in
      rw (header_of_bearer token, bare_token_prefixed token) (found _ _)

  validate_generated :
      (t now : ℕ) (id user node : String) (roles keys : List String) (s : JwtService)
      → Signs jwt s.secret_key (claims_at jwt t id user roles keys node s)
      → now < t + s.expiration
      → validate_token jwt now (generate_token jwt t id user roles keys node s) s
        ≡ ok (claims_at jwt t id user roles keys node s)
  unfolding validate_token generate_token
  validate_generated t now id user node roles keys s signs h =
      rw (validate_token, signs.valid now h) refl

  validate_over :
      (t now : ℕ) (id user node : String) (roles keys : List String) (s : JwtService)
      → Signs jwt s.secret_key (claims_at jwt t id user roles keys node s)
      → t + s.expiration ≤ now
      → validate_token jwt now (generate_token jwt t id user roles keys node s) s
        ≡ err "token expired"
  unfolding validate_token generate_token
  validate_over t now id user node roles keys s signs h = rw (validate_token, signs.over now h) refl

  token_roles_iff :
      (t : ℕ) (id user node : String) (roles keys required : List String) (s : JwtService)
      → (require_role required (some (identity_of jwt (claims_at jwt t id user roles keys node s)))
          ≡ next)
        ↔ Shared required roles
  unfolding identity_of
  token_roles_iff t id user node roles keys required s =
      require_role_iff required (identity_of jwt (claims_at jwt t id user roles keys node s))

  middleware_valid :
      (t now : ℕ) (id user node : String) (roles keys : List String) (s : JwtService)
      → Signs jwt s.secret_key (claims_at jwt t id user roles keys node s)
      → now < t + s.expiration
      → jwt_auth_middleware jwt now
          (text_append "Bearer " (generate_token jwt t id user roles keys node s))
          ""
          s
        ≡ (some (identity_of jwt (claims_at jwt t id user roles keys node s)), next)
  middleware_valid t now id user node roles keys s signs h =
      middleware_bearer now (generate_token jwt t id user roles keys node s) s
      ∙ rw (validate_generated t now id user node roles keys s signs h) refl

  middleware_over :
      (t now : ℕ) (id user node : String) (roles keys : List String) (s : JwtService)
      → Signs jwt s.secret_key (claims_at jwt t id user roles keys node s)
      → t + s.expiration ≤ now
      → jwt_auth_middleware jwt now
          (text_append "Bearer " (generate_token jwt t id user roles keys node s))
          ""
          s
        ≡ (none, abort 401)
  middleware_over t now id user node roles keys s signs h =
      middleware_bearer now (generate_token jwt t id user roles keys node s) s
      ∙ rw (validate_over t now id user node roles keys s signs h) refl

  -- What a request with such an answer may do: it passes the authentication under the first
  -- condition, and the check of roles under both.
  Opens : List String → Type 0 → Type 0 → Option Identity × Reply → Type 0
  Opens required valid shared (identity, reply) =
      ((reply ≡ next) ↔ valid) × ((require_role required identity ≡ next) ↔ (valid × shared))

  -- A token opens a route behind the authentication and a check of roles exactly while it has not
  -- expired, where one of the roles that the route asks for is among the token's; after that the
  -- authentication refuses it.
  pub token_opens :
      (t now : ℕ) (id user node : String) (roles keys required : List String) (s : JwtService)
      → Signs jwt s.secret_key (claims_at jwt t id user roles keys node s)
      → let token = generate_token jwt t id user roles keys node s in
        let (identity, reply) = jwt_auth_middleware jwt now (text_append "Bearer " token) "" s in
        ((reply ≡ next) ↔ (now < t + s.expiration))
        × ((require_role required identity ≡ next)
            ↔ ((now < t + s.expiration) × Shared required roles))
  unfolding Opens require_role
  token_opens t now id user node roles keys required s signs =
      let valid = now < t + s.expiration in
      let opens = Opens required valid (Shared required roles) in
      elim (dec_lt now (t + s.expiration)) [
        | yes lt ↦
            let roles_iff = token_roles_iff t id user node roles keys required s in
            subst opens (sym (middleware_valid t now id user node roles keys s signs lt))
              ((λ h. lt, λ h. refl), (λ h. (lt, roles_iff.0 h), λ h. roles_iff.1 h.1))
        | no nlt ↦
            subst opens (sym (middleware_over t now id user node roles keys s signs (omega arith)))
              ((λ h. ground arith, λ h. absurd (nlt h)), (λ h. ground arith, λ h. absurd (nlt h.0)))
      ]

  refresh-generate :
      (t again : ℕ) (id id' user node : String) (roles keys : List String) (s : JwtService)
      → Signs jwt s.secret_key (claims_at jwt t id user roles keys node s)
      → again < t + s.expiration
      → refresh_token jwt again id' (generate_token jwt t id user roles keys node s) s
        ≡ ok (generate_token jwt again id' user roles keys node s)
  unfolding refresh_token
  refresh-generate t again id id' user node roles keys s signs h =
      rw (refresh_token, validate_generated t again id user node roles keys s signs h) refl

  -- Refreshing a token that has not expired gives a token for the same user, node, roles and keys,
  -- which the authentication accepts until the full time has passed again.
  refreshed_token_opens :
      (t again now : ℕ) (id id' user node : String) (roles keys : List String) (s : JwtService)
      → Signs jwt s.secret_key (claims_at jwt t id user roles keys node s)
      → Signs jwt s.secret_key (claims_at jwt again id' user roles keys node s)
      → again < t + s.expiration
      → (token : String) × (refresh_token jwt again id'
            (generate_token jwt t id user roles keys node s)
            s
          ≡ ok token)
        × (((jwt_auth_middleware jwt now (text_append "Bearer " token) "" s).1 ≡ next)
            ↔ (now < again + s.expiration))
  refreshed_token_opens t again now id id' user node roles keys s signs signs' h = (
    generate_token jwt again id' user roles keys node s,
    refresh-generate t again id id' user node roles keys s signs h,
    (token_opens again now id' user node roles keys [] s signs').0,
  )
