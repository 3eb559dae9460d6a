-- ===== src/Rbac/Examples.antt =====
-- admin/rbac/service.go: an operator's account.
use pmi.Base.{
  ℕ, ◌<◌, ◌≡◌, refl, ◌↔◌, true, false, none, List, [], ◌∷◌, arith, text_discrete, All, insert,
}
use pmi.Base.Result.{ok}
use pmi.Rbac.{
  User, RbacService, new_rbac_service, create_user, deactivate_user, authenticate, hash_password,
  verify_password, default_config,
}
use pmi.Rbac.Accounts.{succeeds, login_after_create}

abbrev secret : List ℕ
secret = 115 ∷ 51 ∷ 99 ∷ 114 ∷ 51 ∷ 116 ∷ 33 ∷ 33 ∷ []

abbrev AllBytes : List ℕ → Type 0
AllBytes = All (λ b. b < 256)

secret-AllBytes : AllBytes secret
secret-AllBytes = ground arith

abbrev service : RbacService
service = new_rbac_service none

abbrev clerk : User
clerk = record {
  id = "1";
  username = "ann";
  password = hash_password secret;
  roles = "operator" ∷ [];
  email = "ann@example.org";
  created_at = 5;
  updated_at = 5;
  last_login = 0;
  active = true;
}

abbrev with_clerk : RbacService
with_clerk = record service { users = insert "ann" clerk service.users }

created :
    create_user "1" 5 "ann" secret "ann@example.org" ("operator" ∷ []) service
    ≡ (with_clerk, ok clerk)
unfolding create_user new_rbac_service text_discrete pmi.Rbac.roles_or_default
created = refl

login_after_create_example :
    ((succeeds (authenticate 9 "ann" secret with_clerk).1 ≡ true) ↔ (secret ≡ secret))
    × (succeeds (authenticate 9 "ann" secret (deactivate_user 5 "ann" with_clerk).0).1 ≡ false)
login_after_create_example =
    login_after_create "1" "ann" "ann@example.org" 5 9 secret secret ("operator" ∷ []) service
      with_clerk clerk secret-AllBytes secret-AllBytes created
