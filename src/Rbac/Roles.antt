-- ===== src/Rbac/Roles.antt =====
-- admin/rbac/service.go: how the four roles compare.
use pmi.Base.{
  String, ◌≡◌, refl, Bool, true, false, not, ◌||◌, Option, [], ◌∷◌, arith, text_discrete,
}
use pmi.Rbac.{
  User, Config, init_permissions, new_rbac_service, any_action, any_permission, any_role,
  has_permission, viewer_permissions, operator_permissions, admin_permissions,
}

viewer-operator :
    (resource action : String)
    → any_permission resource action viewer_permissions ≡ true
    → any_permission resource action operator_permissions ≡ true
unfolding any_permission any_action
viewer-operator resource action h = ground arith

operator-admin :
    (resource action : String)
    → any_permission resource action operator_permissions ≡ true
    → any_permission resource action admin_permissions ≡ true
unfolding any_permission any_action
operator-admin resource action h = ground arith

-- What a user with just one role may do.
can : Option Config → User → String → String → String → Bool
can cfg user role resource action =
    has_permission (record user { roles = role ∷ [] }) resource action (new_rbac_service cfg)

can_as :
    (cfg : Option Config) (user : User) (resource action : String)
    → (can cfg user "viewer" resource action ≡ any_permission resource action viewer_permissions)
      × (can cfg user "operator" resource action
          ≡ any_permission resource action operator_permissions)
      × (can cfg user "admin" resource action ≡ any_permission resource action admin_permissions)
unfolding can has_permission any_role new_rbac_service init_permissions text_discrete
can_as cfg user resource action = (ground arith, ground arith, ground arith)

implies : (a b : Bool) → (a ≡ true → b ≡ true) → (not a || b) ≡ true
implies true b f = f refl
implies false b f = refl

superadmin_can :
    (cfg : Option Config) (user : User) (resource action : String)
    → can cfg user "superadmin" resource action ≡ true
unfolding can has_permission any_role any_permission any_action new_rbac_service init_permissions
    text_discrete
superadmin_can cfg user resource action = ground arith

-- On every resource and action, for users with just one role, what a viewer may do an operator may,
-- what an operator may do an admin may, and a superadmin may do everything.
roles_ascend :
    (cfg : Option Config) (user : User) (resource action : String)
    → ((not (can cfg user "viewer" resource action) || can cfg user "operator" resource action)
        ≡ true)
      × ((not (can cfg user "operator" resource action) || can cfg user "admin" resource action)
          ≡ true)
      × (can cfg user "superadmin" resource action ≡ true)
roles_ascend cfg user resource action =
    let (v, o, a) = can_as cfg user resource action in
    (
      rw (v, o) (implies _ _ (viewer-operator resource action)),
      rw (o, a) (implies _ _ (operator-admin resource action)),
      superadmin_can cfg user resource action,
    )
