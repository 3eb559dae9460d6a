-- ===== src/Rbac/Accounts.antt =====
-- admin/rbac/service.go: who can log in.
use pmi.Base.{
  ℕ, ◌<◌, String, ◌≡◌, refl, sym, ◌∙◌, ◌↔◌, Bool, true, false, ◌&&◌, some, List, arith, All,
}
use pmi.Base.Result.{Result, ok, err}
use pmi.Rbac.{
  User, RbacService, create_user, deactivate_user, authenticate, verify_password, hash_password,
}
use pmi.Rbac.Passwords.{verify_password_iff}

-- Whether a call returned a value.
abbrev pub succeeds {ℓ} : {A : Type ℓ} → Result A → Bool
succeeds (ok a) = true
succeeds (err e) = false

created :
    (id username email : String) (now : ℕ) (password : List ℕ) (roles : List String)
    (s s' : RbacService) (user : User)
    → create_user id now username password email roles s ≡ (s', ok user)
    → (s'.users username ≡ some user)
      × (user.password ≡ hash_password password)
      × (user.active ≡ true)
unfolding create_user
created id username email now password roles s s' user h = ground arith

authenticated :
    (username : String) (now : ℕ) (password : List ℕ) (s : RbacService) (user : User)
    → s.users username ≡ some user
    → succeeds (authenticate now username password s).1
      ≡ (user.active && verify_password password user.password)
unfolding authenticate
authenticated username now password s user e = ground arith

deactivated :
    (username : String) (now : ℕ) (s : RbacService) (user : User)
    → s.users username ≡ some user
    → (deactivate_user now username s).0.users username
      ≡ some (record user { active = false; updated_at = now })
unfolding deactivate_user
deactivated username now s user e = ground arith

-- A user that was created logs in with the bytes of its password and with no others; once it is
-- deactivated it logs in with none. Bytes are below 256.
pub login_after_create :
    (id username email : String) (now later : ℕ) (password attempt : List ℕ) (roles : List String)
    (s s' : RbacService) (user : User)
    → All (λ b. b < 256) password
    → All (λ b. b < 256) attempt
    → create_user id now username password email roles s ≡ (s', ok user)
    → ((succeeds (authenticate later username attempt s').1 ≡ true) ↔ (attempt ≡ password))
      × (succeeds (authenticate later username attempt (deactivate_user now username s').0).1
          ≡ false)
login_after_create id username email now later password attempt roles s s' user hp ha h =
    let (found, stored, active) = created id username email now password roles s s' user h in
    let known = authenticated username later attempt s' user found in
    let gone =
      authenticated username later attempt (deactivate_user now username s').0 _
        (deactivated username now s' user found) in
    let verdict = verify_password_iff attempt password ha hp in
    let same : succeeds (authenticate later username attempt s').1
        ≡ verify_password attempt (hash_password password) =
      known ∙ rw (active, stored) refl in
    ((λ e. verdict.0 (sym same ∙ e), λ e. same ∙ verdict.1 e), gone)
