-- ===== src/Storage/Filters.antt =====
-- internal/storage/filter.go
use chremoas_ng.Base.{ℕ, Bool, ◌&&◌, List, [], ◌∷◌, ◌++◌, map}
use chremoas_ng.Base.{
  ◌==◌, nat_eq, bytes_eq, bool_eq, if◌then◌else◌, any, keep, count, contains, length,
}
use chremoas_ng.Base.Text.{Str, lit, is_empty}
use chremoas_ng.Payloads.{Filter}
use chremoas_ng.Database.{
  Db, FilterRow, MembershipRow, RoleRow, RoleFilterRow, insert_into_filters, delete_from_filters,
  insert_into_filter_membership, delete_from_filter_membership,
}
use chremoas_ng.World.{
  Env, M, pure, check, query, bigint_param, select, execute, first_row, Error, Result, ok, err,
  no_filter, filter_exists, filter_member, not_filter_member, wrapped, is_no_rows, on_unique,
}
use chremoas_ng.Storage.RoleFilters.{delete_role_filter}

unfoldable pub filter_of : FilterRow → Filter
filter_of f = record { id = f.id; name = f.name; description = f.description }

listed_filter : FilterRow → Filter
listed_filter f = record { id = 0; name = f.name; description = f.description }

named_filter : FilterRow → Filter
named_filter f = record { id = 0; name = f.name; description = [] }

abbrev filter_error : Error → Error
filter_error e = if is_no_rows e then no_filter else wrapped (lit "error getting filter: ") e

unfoldable pub found_filter : Result FilterRow → Result Filter
found_filter (ok row) = ok (filter_of row)
found_filter (err e) = err (filter_error e)

-- FROM filters JOIN role_filters JOIN roles: a row for each role filter of the role.
ticker_filters : (RoleRow → Bool) → Db → List RoleFilterRow → List Filter
ticker_filters p db [] = []
ticker_filters p db (rf ∷ rfs) =
    let rest = ticker_filters p db rfs in
    if any (λ r. p r && r.id == rf.role) db.roles
    then map named_filter (keep (λ f. f.id == rf.filter) db.filters) ++ rest
    else rest

-- FROM filters JOIN filter_membership ON filters.id = filter_membership.filter
filter_members : Str → List FilterRow → List MembershipRow → List ℕ
filter_members name filters [] = []
filter_members name filters (m ∷ ms) =
    let rest = filter_members name filters ms in
    if any (λ f. f.name == name && f.id == m.filter) filters then m.user_id ∷ rest else rest

-- The groups of GROUP BY user_id: each user once.
unfoldable pub group_users : List MembershipRow → List ℕ
group_users [] = []
group_users (m ∷ ms) =
    let rest = group_users ms in if contains rest m.user_id then rest else m.user_id ∷ rest

-- WHERE filter IN (…) GROUP BY user_id HAVING count(*) = n. An empty list matches no row.
unfoldable pub users_in_all : List ℕ → List MembershipRow → List ℕ
unfolding group_users
users_in_all filters ms =
    let rows = keep (λ m. contains filters m.filter) ms in
    keep (λ u. count (λ m. m.user_id == u) rows == length filters) (group_users rows)

module _ (env : Env) where
  unfoldable pub get_filter : Str → M (Result Filter)
  unfolding filter_of found_filter query
  get_filter name =
      check (query env (select (λ db. keep (λ f. f.name == name) db.filters)))
        (λ e. pure (err (filter_error e))) (λ found. pure (found_filter (first_row found)))

  unfoldable pub get_filters : M (Result (List Filter))
  unfolding listed_filter query
  get_filters = query env (select (λ db. map listed_filter db.filters))

  unfoldable pub get_ticker_filters : Bool → Str → M (Result (List Filter))
  unfolding named_filter ticker_filters query
  get_ticker_filters sig ticker = query env (
      select (λ db. ticker_filters (λ r. r.role_nick == ticker && r.sig == sig) db db.role_filters))

  unfoldable pub insert_filter : Str → Str → M (Result ℕ)
  unfolding query
  insert_filter name description =
      check (query env (insert_into_filters name description)) (on_unique filter_exists)
        (λ id. pure (ok id))

  -- With an empty user id the condition on the user is left out.
  unfoldable pub delete_filter_membership : ℕ → Str → M (Result Unit)
  unfolding query bigint_param
  delete_filter_membership filter_id user_id =
      if is_empty user_id
      then query env (execute (delete_from_filter_membership (λ m. m.filter == filter_id)))
      else query env (
          bigint_param env user_id (λ u.
            execute (delete_from_filter_membership (λ m. m.filter == filter_id && m.user_id == u))))

  unfoldable pub delete_filter : Str → M (Result Unit)
  unfolding get_filter delete_filter_membership delete_role_filter query
  delete_filter name =
      check (get_filter name) (λ e. pure (err e))
        λ filter.
          check (delete_filter_membership filter.id [])
            (λ e.
              if is_no_rows e
              then pure (err not_filter_member)
              else pure (err (wrapped (lit "error calling DeleteFilterMembership: ") e)))
            λ _.
              check (delete_role_filter env filter.id) (λ e. pure (err e))
                λ _. query env (execute (delete_from_filters (λ f. f.id == filter.id)))

  unfoldable pub delete_filter_by_id : ℕ → M (Result Unit)
  unfolding delete_filter_membership delete_role_filter query
  delete_filter_by_id id =
      check (delete_filter_membership id []) (λ e. pure (err e))
        λ _.
          check (delete_role_filter env id) (λ e. pure (err e))
            λ _. query env (execute (delete_from_filters (λ f. f.id == id)))

  unfoldable pub list_filter_members : Str → M (Result (List ℕ))
  unfolding filter_members query
  list_filter_members filter =
      query env (select (λ db. filter_members filter db.filters db.filter_membership))

  unfoldable pub add_filter_membership : ℕ → Str → M (Result Unit)
  unfolding query bigint_param
  add_filter_membership filter_id user_id =
      check (query env (bigint_param env user_id (insert_into_filter_membership filter_id)))
        (on_unique filter_member) (λ _. pure (ok tt))

  unfoldable pub get_role_members : List ℕ → M (Result (List ℕ))
  unfolding users_in_all query
  get_role_members filter_list =
      query env (select (λ db. users_in_all filter_list db.filter_membership))
