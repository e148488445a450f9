-- ===== src/Gate/Granting.antt =====
-- Which permissions a user's roles give.
use sha.Base.{
  String, ◌≡◌, refl, ap₂, ◌∙◌, Bool, true, false, not, ◌&&◌, ◌||◌, Option, none, some, List, [],
  ◌∷◌, map, arith, str_eq, str_sym, string_eq, any, any-append, any-select_where, any-order_by,
  find_first, select_where, contains,
}
use sha.Model.{Db, RoleRow, RolePermission, UserRoleBinding}
use sha.Outside.{Outside}
use sha.Authz.{ScopeGrant}
use sha.Identity.{is_set}
use sha.Gate.Sessions.{
  grant_with, bindings_of, permissions_of, grants_of_binding, concat_grants, load_user_grants,
}

module _ (o : Outside) (db : Db) (permission : String) where
  -- The permission is one of the role's.
  abbrev pub role_permits : String → RolePermission → Bool
  role_permits role_id r = str_eq r.role_id role_id && str_eq r.permission permission

  -- The binding gives the permission: its role exists and has it.
  abbrev pub binding_permits : UserRoleBinding → Bool
  binding_permits b =
      any (λ r. str_eq r.role_id b.role_id) db.roles
      && any (role_permits b.role_id) db.role_permissions

  abbrev pub grant_has : ScopeGrant → Bool
  grant_has g = contains permission g.permissions

  contains-map :
      (rs : List RolePermission)
      → contains permission (map (λ r. r.permission) rs)
        ≡ any (λ r. str_eq r.permission permission) rs
  unfolding contains any
  contains-map [] = refl
  contains-map (r ∷ rs) = ground (arith, contains-map rs, str_sym r.permission permission)

  contains-permissions_of :
      (role_id : String)
      → contains permission (permissions_of o db role_id)
        ≡ any (role_permits role_id) db.role_permissions
  unfolding permissions_of
  contains-permissions_of role_id =
      contains-map (select_where (λ r. str_eq r.role_id role_id) db.role_permissions)
      ∙ any-select_where (λ r. str_eq r.permission permission) (λ r. str_eq r.role_id role_id)
          db.role_permissions

  abbrev is_found : Option RoleRow → Bool
  is_found none = false
  is_found (some r) = true

  is_found-find_first :
      (rs : List RoleRow) (test : RoleRow → Bool) → is_found (find_first test rs) ≡ any test rs
  unfolding find_first any
  is_found-find_first [] test = refl
  is_found-find_first (r ∷ rs) test = ground (arith, is_found-find_first rs test)

  grant_with_has :
      (b : UserRoleBinding) (role : Option RoleRow) (permissions : List String)
      → any grant_has (grant_with o b role permissions)
        ≡ (is_found role && contains permission permissions)
  unfolding any contains
  grant_with_has b none permissions = refl
  grant_with_has b (some r) [] = refl
  grant_with_has b (some r) (p ∷ ps) = ground arith

  any-grants_of_binding :
      (b : UserRoleBinding) → any grant_has (grants_of_binding o db b) ≡ binding_permits b
  unfolding grants_of_binding
  any-grants_of_binding b =
      grant_with_has b _ (permissions_of o db b.role_id)
      ∙ ap₂ (λ x y. x && y) (is_found-find_first db.roles (λ r. str_eq r.role_id b.role_id))
          (contains-permissions_of b.role_id)

  any-concat_grants :
      (bs : List UserRoleBinding) → any grant_has (concat_grants o db bs) ≡ any binding_permits bs
  unfolding concat_grants any
  any-concat_grants [] = refl
  any-concat_grants (b ∷ bs) =
      any-append grant_has (grants_of_binding o db b) (concat_grants o db bs)
      ∙ ap₂ (λ x y. x || y) (any-grants_of_binding b) (any-concat_grants bs)

  -- The grants that are loaded for a user hold a permission exactly when the user has a binding that
  -- is not revoked, whose role exists and has that permission.
  pub load_user_grants-permission :
      (user_id : String)
      → any grant_has (load_user_grants o db user_id)
        ≡ any
            (λ b. (str_eq b.user_id user_id && not (is_set b.revoked_at)) && binding_permits b)
            db.role_bindings
  unfolding load_user_grants bindings_of
  load_user_grants-permission user_id =
      any-concat_grants _
      ∙ any-order_by binding_permits _ _
      ∙ any-select_where binding_permits
          (λ b. str_eq b.user_id user_id && not (is_set b.revoked_at)) db.role_bindings
