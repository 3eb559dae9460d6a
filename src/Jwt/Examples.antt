-- ===== src/Jwt/Examples.antt =====
-- jwt/service.go: two tokens of an operator, with a library that writes the id of the token.
use pmi.Base.{
  ℕ, ◌+◌, ◌<◌, String, text_append, ◌≡◌, ◌↔◌, refl, Bool, true, Option, none, some, List, [], ◌∷◌,
  arith, ltb, if◌then◌else◌, ite, text_discrete,
}
use pmi.Base.Http.{next}
use pmi.Jwt.{
  Claims, parsed, expired, malformed, JwtLibrary, Signs, JwtService, generate_token,
  jwt_auth_middleware, require_role,
}
use pmi.Jwt.Guarded.{Shared, token_opens}

abbrev service : JwtService
service = record { secret_key = "k"; expiration = 60; issuer = "proxymesh" }

abbrev claims : ℕ → String → Claims
claims t id = record {
  id = id;
  issued_at = t;
  expires_at = t + 60;
  issuer = "proxymesh";
  user_id = "ann";
  roles = "operator" ∷ [];
  api_keys = [];
  node_id = "";
}

abbrev library : JwtLibrary
library = record {
  sign = λ secret c. c.id;
  parse = λ secret now token.
      ite (text_discrete token "t1") (if ltb now 160 then parsed (claims 100 "t1") else expired) (
        ite (text_discrete token "t2") (if ltb now 210 then parsed (claims 150 "t2") else expired)
          malformed);
}

first_Signs : Signs library "k" (claims 100 "t1")
unfolding pmi.Base.text_discrete
first_Signs = record { valid = λ now h. ground arith; over = λ now h. ground arith }

second_Signs : Signs library "k" (claims 150 "t2")
unfolding pmi.Base.text_discrete
second_Signs = record { valid = λ now h. ground arith; over = λ now h. ground arith }

token_opens_example :
    let token = generate_token library 100 "t1" "ann" ("operator" ∷ []) [] "" service in
    let (identity, reply) =
      jwt_auth_middleware library 120 (text_append "Bearer " token) "" service in
    ((reply ≡ next) ↔ (120 < 100 + service.expiration))
    × ((require_role ("admin" ∷ "operator" ∷ []) identity ≡ next)
        ↔ ((120 < 100 + service.expiration) × Shared ("admin" ∷ "operator" ∷ []) ("operator" ∷ [])))
token_opens_example =
    token_opens library 100 120 "t1" "ann" "" ("operator" ∷ []) [] ("admin" ∷ "operator" ∷ [])
      service first_Signs
