-- ===== src/Storage/RoleFilters.antt =====
-- internal/storage/role_filter.go
use chremoas_ng.Base.{ℕ, Bool, ◌&&◌, Option, List, [], ◌∷◌}
use chremoas_ng.Base.{◌==◌, nat_eq, bytes_eq, bool_eq, if◌then◌else◌, any}
use chremoas_ng.Base.Text.{Str}
use chremoas_ng.Payloads.{RoleFilter}
use chremoas_ng.Database.{
  RoleRow, RoleFilterRow, insert_into_role_filters, delete_from_role_filters,
}
use chremoas_ng.World.{
  Env, M, pure, check, query, select, execute, Result, ok, permission_exists, on_unique,
}

-- Only the column `filter` is read.
unfoldable pub role_filter_of : RoleFilterRow → RoleFilter
role_filter_of rf = record { id = 0; role = 0; filter = rf.filter }

-- FROM role_filters INNER JOIN roles ON role_filters.role = roles.id: a row for each pair.
unfoldable pub joined_filters :
    (RoleRow → Bool) → List RoleRow → List RoleFilterRow → List RoleFilter
joined_filters p roles [] = []
joined_filters p roles (rf ∷ rfs) =
    let rest = joined_filters p roles rfs in
    if any (λ r. p r && r.id == rf.role) roles then role_filter_of rf ∷ rest else rest

module _ (env : Env) where
  unfoldable pub get_role_filters : Bool → Str → M (Result (List RoleFilter))
  unfolding role_filter_of joined_filters query
  get_role_filters sig name = query env (
      select
        (λ db. joined_filters (λ r. r.sig == sig && r.role_nick == name) db.roles db.role_filters))

  unfoldable pub delete_role_filter : ℕ → M (Result Unit)
  unfolding query
  delete_role_filter filter_id =
      query env (execute (delete_from_role_filters (λ rf. rf.filter == filter_id)))

  -- A filter id of -1 is written `none`. The sentinel is that of permissions in the source.
  unfoldable pub insert_role_filter : ℕ → Option ℕ → M (Result Unit)
  unfolding query
  insert_role_filter role_id filter_id =
      check (query env (insert_into_role_filters role_id filter_id)) (on_unique permission_exists)
        (λ _. pure (ok tt))
