-- ===== src/Database/Permissions.antt =====
-- Statements on permissions and permission_membership (sql/*.up.sql).
use chremoas_ng.Base.{
  ℕ, suc, Bool, ◌&&◌, not, ◌∷◌, ◌==◌, nat_eq, bool_eq, bytes_eq, if◌then◌else◌, any, drop_all,
}
use chremoas_ng.Base.Text.{Str}
use chremoas_ng.Database.Rows.{
  PermissionRow, PermissionMembershipRow, Db, foreign_key_violation, unique_violation,
  string_too_long, Outcome, rows, violation, fits,
}

-- CREATE UNIQUE INDEX permissions_uindex ON permissions (name)
unfoldable pub insert_into_permissions : Str → Str → Db → Outcome Unit
insert_into_permissions name description db =
    let db' : Db = record db { permissions_next = suc db.permissions_next } in
    let row : PermissionRow = record {
      id = db.permissions_next;
      name = name;
      description = description;
    } in
    if not (fits 32 name && fits 256 description)
    then violation string_too_long db'
    else if any (λ p. p.name == name) db.permissions
    then violation unique_violation db'
    else rows tt (record db' { permissions = row ∷ db.permissions })

-- permission_membership refers to permissions with no ON DELETE clause.
unfoldable pub delete_from_permissions : (PermissionRow → Bool) → Db → Outcome Unit
delete_from_permissions p db =
    if any (λ m. any (λ q. p q && q.id == m.permission) db.permissions) db.permission_membership
    then violation foreign_key_violation db
    else rows tt (record db { permissions = drop_all p db.permissions })

-- CREATE UNIQUE INDEX permission_membership_uindex ON permission_membership (permission, user_id)
unfoldable pub insert_into_permission_membership : ℕ → ℕ → Db → Outcome Unit
insert_into_permission_membership permission user_id db =
    if any (λ m. m.permission == permission && m.user_id == user_id) db.permission_membership
    then violation unique_violation db
    else if not (any (λ p. p.id == permission) db.permissions)
    then violation foreign_key_violation db
    else let row : PermissionMembershipRow = record {
      permission = permission;
      user_id = user_id;
    } in
      rows tt (record db { permission_membership = row ∷ db.permission_membership })

unfoldable pub delete_from_permission_membership : (PermissionMembershipRow → Bool) → Db → Db
delete_from_permission_membership p db = record db {
  permission_membership = drop_all p db.permission_membership;
}
