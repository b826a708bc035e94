-- ===== src/Storage/Runs.antt =====
-- How the functions of internal/storage run when no server fails.
use chremoas_ng.Base.{
  ℕ, Bool, false, map, ◌≡◌, refl, ◌∙◌, ◌&&◌, ◌==◌, nat_eq, bytes_eq, some, List, [], ◌∷◌, keep,
  count,
}
use chremoas_ng.Base.Text.{Str, is_empty}
use chremoas_ng.Database
use chremoas_ng.Database.{
  PermissionRow, FilterRow, Db, rows, insert_into_filter_membership, delete_from_filter_membership,
}
use chremoas_ng.Storage.Roles.{get_member_roles, member_role}
use chremoas_ng.World.{
  World, Env, done, pure, tick, ok, err, no_permission, is_no_rows, select, execute, first_row,
}
use chremoas_ng.World.Runs.{IsCalm, query-select, query-bigint, check-ok}
use chremoas_ng.Storage.Permissions.{
  get_permission, get_permission_count, permission_of_id, found_permission,
}
use chremoas_ng.Storage.Filters.{
  delete_filter_membership, add_filter_membership, get_filter, filter_of, found_filter,
}

module _ (env : Env) (calm : IsCalm env) where
  get_permission-run :
      (name : Str) (w : World)
      → get_permission env name w
        ≡ done (found_permission (first_row (keep (λ p. p.name == name) w.db.permissions))) (tick w)
  unfolding get_permission pure
  get_permission-run name w =
      check-ok _ _ _ w (tick w) _
        (query-select env (λ db. keep (λ p. p.name == name) db.permissions) w calm)

  pub get_permission-found :
      (name : Str) (w : World) (p : PermissionRow) (ps : List PermissionRow)
      → keep (λ p. p.name == name) w.db.permissions ≡ p ∷ ps
      → get_permission env name w ≡ done (ok (permission_of_id p)) (tick w)
  unfolding found_permission
  get_permission-found name w p ps e = get_permission-run name w ∙ rw (e) refl

  pub get_permission-missing :
      (name : Str) (w : World)
      → keep (λ p. p.name == name) w.db.permissions ≡ []
      → get_permission env name w ≡ done (err no_permission) (tick w)
  unfolding found_permission is_no_rows
  get_permission-missing name w e = get_permission-run name w ∙ rw (e) refl

  pub get_permission_count-run :
      (author : Str) (id u : ℕ) (w : World)
      → env.bigint author ≡ some u
      → get_permission_count env author id w
        ≡ done
            (ok (count (λ m. m.user_id == u && m.permission == id) w.db.permission_membership))
            (tick w)
  unfolding get_permission_count
  get_permission_count-run author id u w e =
      query-bigint env author
        (λ v.
          select (λ db. count (λ m. m.user_id == v && m.permission == id) db.permission_membership))
        u w _ w.db calm e refl

  get_filter-run :
      (name : Str) (w : World)
      → get_filter env name w
        ≡ done (found_filter (first_row (keep (λ f. f.name == name) w.db.filters))) (tick w)
  unfolding get_filter pure
  get_filter-run name w =
      check-ok _ _ _ w (tick w) _
        (query-select env (λ db. keep (λ f. f.name == name) db.filters) w calm)

  pub get_filter-found :
      (name : Str) (w : World) (f : FilterRow) (fs : List FilterRow)
      → keep (λ f. f.name == name) w.db.filters ≡ f ∷ fs
      → get_filter env name w ≡ done (ok (filter_of f)) (tick w)
  unfolding found_filter
  get_filter-found name w f fs e = get_filter-run name w ∙ rw (e) refl

  pub get_member_roles-run :
      (user_id : Str) (sig : Bool) (u : ℕ) (w : World)
      → env.bigint user_id ≡ some u
      → get_member_roles env user_id sig w
        ≡ done (ok (map member_role (Database.get_member_roles u sig w.db))) (tick w)
  unfolding get_member_roles pure
  get_member_roles-run user_id sig u w e = check-ok _ _ _ w (tick w) _ (
      query-bigint env user_id
        (λ v. select (λ db. map member_role (Database.get_member_roles v sig db))) u w _ w.db calm e
        refl)

  pub add_filter_membership-run :
      (filter_id : ℕ) (user_id : Str) (u : ℕ) (w : World) (db : Db)
      → env.bigint user_id ≡ some u
      → insert_into_filter_membership filter_id u w.db ≡ rows tt db
      → add_filter_membership env filter_id user_id w ≡ done (ok tt) (record (tick w) { db = db })
  unfolding add_filter_membership pure
  add_filter_membership-run filter_id user_id u w db e result =
      check-ok _ _ _ w (record (tick w) { db = db }) tt
        (query-bigint env user_id (insert_into_filter_membership filter_id) u w tt db calm e result)

  pub delete_filter_membership-run :
      (filter_id : ℕ) (user_id : Str) (u : ℕ) (w : World)
      → is_empty user_id ≡ false
      → env.bigint user_id ≡ some u
      → delete_filter_membership env filter_id user_id w
        ≡ done (ok tt) (record (tick w) {
          db = delete_from_filter_membership (λ m. m.filter == filter_id && m.user_id == u) w.db;
        })
  unfolding delete_filter_membership
  delete_filter_membership-run filter_id user_id u w given e =
      rw (delete_filter_membership, given)
        (query-bigint env user_id
          (λ v.
            execute (delete_from_filter_membership (λ m. m.filter == filter_id && m.user_id == v)))
          u w tt _ calm e refl)
