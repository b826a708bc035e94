-- ===== src/Storage/Permissions.antt =====
-- internal/storage/permissions.go
use chremoas_ng.Base.{ℕ, ◌&&◌, List, [], ◌∷◌, map}
use chremoas_ng.Base.{◌==◌, nat_eq, bytes_eq, if◌then◌else◌, keep, any, count}
use chremoas_ng.Base.Text.{Str}
use chremoas_ng.Payloads.{Permission}
use chremoas_ng.Database.{
  PermissionRow, PermissionMembershipRow, insert_into_permissions, delete_from_permissions,
  insert_into_permission_membership, delete_from_permission_membership,
}
use chremoas_ng.World.{
  Env, M, pure, check, query, bigint_param, select, execute, first_row, Result, ok, err,
  no_permission, permission_exists, permission_member, is_no_rows, on_unique,
}

unfoldable pub permission_of_id : PermissionRow → Permission
permission_of_id p = record { id = p.id; name = []; description = [] }

permission_of : PermissionRow → Permission
permission_of p = record { id = 0; name = p.name; description = p.description }

permission_of_name : PermissionRow → Permission
permission_of_name p = record { id = 0; name = p.name; description = [] }

unfoldable pub found_permission : Result PermissionRow → Result Permission
found_permission (ok row) = ok (permission_of_id row)
found_permission (err e) = err (if is_no_rows e then no_permission else e)

module _ (env : Env) where
  unfoldable pub get_permission : Str → M (Result Permission)
  unfolding permission_of_id found_permission query
  get_permission name =
      check (query env (select (λ db. keep (λ p. p.name == name) db.permissions)))
        (λ e. pure (err e)) (λ found. pure (found_permission (first_row found)))

  unfoldable pub get_permissions : M (Result (List Permission))
  unfolding permission_of query
  get_permissions = query env (select (λ db. map permission_of db.permissions))

  unfoldable pub insert_permission : Str → Str → M (Result Unit)
  unfolding query
  insert_permission name description =
      check (query env (insert_into_permissions name description)) (on_unique permission_exists)
        (λ _. pure (ok tt))

  unfoldable pub delete_permission : Str → M (Result Unit)
  unfolding query
  delete_permission name = query env (delete_from_permissions (λ p. p.name == name))

  -- FROM permission_membership JOIN permissions: a row for each matching pair.
  members_of : Str → List PermissionRow → List PermissionMembershipRow → List ℕ
  members_of name perms [] = []
  members_of name perms (m ∷ ms) =
      let rest = members_of name perms ms in
      if any (λ p. p.name == name && p.id == m.permission) perms then m.user_id ∷ rest else rest

  unfoldable pub list_permission_members : Str → M (Result (List ℕ))
  unfolding members_of query
  list_permission_members name =
      query env (select (λ db. members_of name db.permissions db.permission_membership))

  unfoldable pub insert_permission_membership : ℕ → Str → M (Result Unit)
  unfolding query bigint_param
  insert_permission_membership permission_id user_id =
      check (query env (bigint_param env user_id (insert_into_permission_membership permission_id)))
        (on_unique permission_member) (λ _. pure (ok tt))

  unfoldable pub delete_permission_membership : ℕ → Str → M (Result Unit)
  unfolding query bigint_param
  delete_permission_membership permission_id user_id = query env (
      bigint_param env user_id (λ u.
        execute (
          delete_from_permission_membership
            (λ m. m.permission == permission_id && m.user_id == u))))

  -- FROM permissions JOIN permission_membership: a row for each matching pair.
  permissions_of : ℕ → List PermissionMembershipRow → List PermissionRow → List Permission
  permissions_of u ms [] = []
  permissions_of u ms (p ∷ ps) =
      let rest = permissions_of u ms ps in
      if any (λ m. m.user_id == u && m.permission == p.id) ms
      then permission_of_name p ∷ rest
      else rest

  unfoldable pub get_user_permissions : Str → M (Result (List Permission))
  unfolding permission_of_name permissions_of query bigint_param
  get_user_permissions user_id = query env (
      bigint_param env user_id
        (λ u. select (λ db. permissions_of u db.permission_membership db.permissions)))

  unfoldable pub get_permission_count : Str → ℕ → M (Result ℕ)
  unfolding query bigint_param
  get_permission_count author_id permission_id = query env (
      bigint_param env author_id (λ u. select (λ db.
        count (λ m. m.user_id == u && m.permission == permission_id) db.permission_membership)))
