-- ===== src/Rbac.antt =====
-- admin/rbac/service.go: users, roles and permissions. A password and its hash are bytes; roles are
-- the texts of the type `Role`.
mod Roles
mod Passwords
mod Accounts
mod Examples
use pmi.Base.{
  [], bit_xor, ℕ, ◌+◌, ◌/◌, ◌%◌, String, ite, Bool, true, false, not, ◌&&◌, ◌||◌, Option, none,
  some, List, ◌∷◌, map, ltb, ◌==◌, if◌then◌else◌, text_discrete, length, StringMap, empty, insert,
}
use pmi.Base.Result.{Result, ok, err}

pub record User : Type 0 where
  pub id : String
  pub username : String
  pub password : List ℕ
  pub roles : List String
  pub email : String
  pub created_at : ℕ
  pub updated_at : ℕ
  pub last_login : ℕ
  pub active : Bool

pub record Permission : Type 0 where
  pub resource : String
  pub actions : List String

pub record Config : Type 0 where
  pub default_role : String
  pub min_password_len : ℕ
  pub max_login_attempts : ℕ
  pub lockout_duration : ℕ

pub record RbacService : Type 0 where
  pub users : StringMap User
  pub perms : StringMap (List Permission)
  pub cfg : Config

abbrev grant : String → List String → Permission
grant resource actions = record { resource = resource; actions = actions }

abbrev pub viewer_permissions : List Permission
viewer_permissions =
    grant "nodes" ("read" ∷ []) ∷ grant "keys" ("read" ∷ []) ∷ grant "capacity" ("read" ∷ []) ∷ []

abbrev pub operator_permissions : List Permission
operator_permissions =
    grant "nodes" ("read" ∷ "write" ∷ [])
    ∷ grant "keys" ("read" ∷ "write" ∷ [])
    ∷ grant "sessions" ("read" ∷ "delete" ∷ [])
    ∷ grant "cooldowns" ("read" ∷ [])
    ∷ grant "capacity" ("read" ∷ [])
    ∷ []

abbrev pub admin_permissions : List Permission
admin_permissions =
    grant "nodes" ("*" ∷ [])
    ∷ grant "keys" ("*" ∷ [])
    ∷ grant "sessions" ("*" ∷ [])
    ∷ grant "cooldowns" ("*" ∷ [])
    ∷ grant "subnets" ("*" ∷ [])
    ∷ grant "capacity" ("read" ∷ "write" ∷ [])
    ∷ grant "audit" ("read" ∷ [])
    ∷ []

pub init_permissions : StringMap (List Permission)
init_permissions = insert "viewer" viewer_permissions (
    insert "operator" operator_permissions
      (insert "admin" admin_permissions (insert "superadmin" (grant "*" ("*" ∷ []) ∷ []) empty)))

abbrev default_config : Config
default_config = record {
  default_role = "viewer";
  min_password_len = 8;
  max_login_attempts = 5;
  lockout_duration = 15;
}

pub new_rbac_service : Option Config → RbacService
new_rbac_service cfg = record {
  users = empty;
  perms = init_permissions;
  cfg = elim cfg [ none ↦ default_config | some c ↦ c ];
}

-- The two hexadecimal digits of each byte, as `hex.EncodeToString` writes them.
hex_digit : ℕ → ℕ
hex_digit d = if ltb d 10 then 48 + d else 87 + d

encode_hex : List ℕ → List ℕ
encode_hex [] = []
encode_hex (b ∷ bs) = hex_digit (b / 16) ∷ hex_digit (b % 16) ∷ encode_hex bs

pub hash_password : List ℕ → List ℕ
unfolding encode_hex hex_digit
hash_password password = encode_hex (map (λ b. bit_xor b 0x5A) password)

bytes_equal : List ℕ → List ℕ → Bool
bytes_equal [] [] = true
bytes_equal (x ∷ xs) (y ∷ ys) = x == y && bytes_equal xs ys
bytes_equal _ _ = false

pub verify_password : List ℕ → List ℕ → Bool
unfolding bytes_equal
verify_password password hash = bytes_equal (hash_password password) hash

is_blank : String → List ℕ → Bool
is_blank username [] = true
is_blank username (b ∷ bs) = ite (text_discrete username "") true false

roles_or_default : String → List String → List String
roles_or_default role [] = role ∷ []
roles_or_default role (r ∷ rs) = r ∷ rs

add_user :
    String → ℕ → String → List ℕ → String → List String → RbacService → RbacService × Result User
add_user id now username password email roles s =
    let user : User = record {
      id = id;
      username = username;
      password = hash_password password;
      roles = roles_or_default s.cfg.default_role roles;
      email = email;
      created_at = now;
      updated_at = now;
      last_login = 0;
      active = true;
    } in
    elim (s.users username) [
      | some old ↦ (s, err "user already exists")
      | none ↦ (record s { users = insert username user s.users }, ok user)
    ]

-- `id` is what `generateID` draws.
pub create_user :
    String → ℕ → String → List ℕ → String → List String → RbacService → RbacService × Result User
unfolding is_blank add_user
create_user id now username password email roles s =
    if is_blank username password
    then (s, err "username and password required")
    else if ltb (length password) s.cfg.min_password_len
    then (s, err "password too short")
    else add_user id now username password email roles s

get_user : String → RbacService → Result User
get_user username s = elim (s.users username) [ none ↦ err "user not found" | some user ↦ ok user ]

update_user_roles : ℕ → String → List String → RbacService → RbacService × Result (Unit {0})
update_user_roles now username roles s = elim (s.users username) [
  | none ↦ (s, err "user not found")
  | some user ↦ (
    record s { users = insert username (record user { roles = roles; updated_at = now }) s.users },
    ok tt,
  )
]

pub deactivate_user : ℕ → String → RbacService → RbacService × Result (Unit {0})
deactivate_user now username s = elim (s.users username) [
  | none ↦ (s, err "user not found")
  | some user ↦ (
    record s { users = insert username (record user { active = false; updated_at = now }) s.users },
    ok tt,
  )
]

pub authenticate : ℕ → String → List ℕ → RbacService → RbacService × Result User
authenticate now username password s = elim (s.users username) [
  | none ↦ (s, err "invalid credentials")
  | some user ↦
      if not user.active
      then (s, err "account deactivated")
      else if not (verify_password password user.password)
      then (s, err "invalid credentials")
      else (
        record s { users = insert username (record user { last_login = now }) s.users },
        ok (record user { last_login = now }),
      )
]

any_action : String → List String → Bool
any_action action [] = false
any_action action (a ∷ as') =
    let rest = any_action action as' in
    ite (text_discrete a "*") true (ite (text_discrete a action) true rest)

any_permission : String → String → List Permission → Bool
any_permission resource action [] = false
any_permission resource action (p ∷ ps) =
    let rest = any_permission resource action ps in
    let here = any_action action p.actions in
    ite (text_discrete p.resource "*") (here || rest)
      (ite (text_discrete p.resource resource) (here || rest) rest)

any_role : String → String → StringMap (List Permission) → List String → Bool
any_role resource action perms [] = false
any_role resource action perms (role ∷ roles) =
    let rest = any_role resource action perms roles in
    elim (perms role) [ none ↦ rest | some ps ↦ any_permission resource action ps || rest ]

pub has_permission : User → String → String → RbacService → Bool
has_permission user resource action s = any_role resource action s.perms user.roles

-- `RequirePermission`, from the user in the request's context, none if there is no user or
-- another value
require_permission : Option User → String → String → RbacService → Option ℕ
require_permission none resource action s = some 401
require_permission (some user) resource action s =
    if has_permission user resource action s then none else some 403
