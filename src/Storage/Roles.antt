-- ===== src/Storage/Roles.antt =====
-- internal/storage/roles.go
use chremoas_ng.Base.{
  ℕ, Bool, true, false, ◌&&◌, ◌||◌, Option, none, some, List, [], ◌∷◌, ◌++◌, map, ◌==◌, nat_eq,
  bytes_eq, bool_eq, if◌then◌else◌, keep, count,
}
use chremoas_ng.Base.Text.{Str, lit, is_empty}
use chremoas_ng.Payloads.{Role, zero_role, RoleFilter}
use chremoas_ng.Database
use chremoas_ng.Database.{RoleRow, Db, Outcome, update_roles, insert_into_roles, delete_from_roles}
use chremoas_ng.World.{
  Env, M, pure, check, ◌>>=◌, ◌>>◌, query, bigint_param, select, execute, first_row, Error, Result,
  ok, err, message, no_role, role_exists, is_no_rows, on_unique,
}
use chremoas_ng.Storage.Filters.{delete_filter_membership, delete_filter_by_id}
use chremoas_ng.Storage.RoleFilters.{get_role_filters, delete_role_filter}

-- `RoleType`
abbrev pub role_type : Bool → Str
role_type false = lit "role"
role_type true = lit "sig"

unfoldable pub synced_role : RoleRow → Role
synced_role r = record zero_role { sync = r.sync; chat_id = r.chat_id }

-- The columns that doGetRoles scans.
unfoldable pub listed_role : RoleRow → Role
listed_role r = record zero_role {
  color = r.color;
  hoist = r.hoist;
  joinable = r.joinable;
  managed = r.managed;
  mentionable = r.mentionable;
  name = r.name;
  permissions = r.permissions;
  position = r.position;
  short_name = r.role_nick;
  sig = r.sig;
  sync = r.sync;
}

unfoldable pub member_role : RoleRow → Role
member_role r = record zero_role { short_name = r.role_nick; name = r.name; chat_id = r.chat_id }

-- What a missing row is reported as.
unfoldable pub found_role : Error → Result RoleRow → Result Role
found_role missing (ok row) = ok (synced_role row)
found_role missing (err e) = err (if is_no_rows e then missing else e)

-- An optional condition of a query.
abbrev matches : Str → Str → Bool
matches wanted s = is_empty wanted || s == wanted

abbrev matches_sig : Option Bool → Bool → Bool
matches_sig none s = true
matches_sig (some sig) s = s == sig

abbrev matches_name : Option Str → Str → Bool
matches_name none s = true
matches_name (some name) s = s == name

module _ (env : Env) where
  unfoldable pub get_role_count : Bool → Str → M (Result ℕ)
  unfolding query
  get_role_count sig ticker =
      query env (select (λ db. count (λ r. r.role_nick == ticker && r.sig == sig) db.roles))

  unfoldable pub get_role : Str → Str → Option Bool → M (Result Role)
  unfolding synced_role found_role query
  get_role name ticker sig =
      check
        (query env (
          select (λ db.
            keep (λ r. matches name r.name && matches ticker r.role_nick && matches_sig sig r.sig)
              db.roles)))
        (λ e. pure (err e)) (λ found. pure (found_role no_role (first_row found)))

  unfoldable pub get_role_by_chat_id : Str → M (Result Role)
  unfolding synced_role found_role query bigint_param
  get_role_by_chat_id chat_id =
      check
        (query env
          (bigint_param env chat_id (λ c. select (λ db. keep (λ r. r.chat_id == c) db.roles))))
        (λ e. pure (err e)) (λ found. pure (found_role role_exists (first_row found)))

  unfoldable pub do_get_roles : Bool → Option Str → M (Result (List Role))
  unfolding listed_role query
  do_get_roles sig short_name = query env (
      select (λ db.
        map listed_role (keep (λ r. r.sig == sig && matches_name short_name r.role_nick) db.roles)))

  unfoldable pub only_role : Str → List Role → Result Role
  only_role short_name [] = err (message (lit "no such role: " ++ short_name))
  only_role short_name (r ∷ []) = ok r
  only_role short_name (r ∷ s ∷ rs) =
      err (message (lit "more than one role returned when only one expected"))

  unfoldable pub get_role_by_type : Bool → Str → M (Result Role)
  unfolding do_get_roles only_role
  get_role_by_type sig short_name =
      check (do_get_roles sig (some short_name)) (λ e. pure (err e))
        (λ roles. pure (only_role short_name roles))

  unfoldable pub get_roles_by_type : Bool → M (Result (List Role))
  unfolding do_get_roles
  get_roles_by_type sig = do_get_roles sig none

  unfoldable pub update_role : Str → Str → Str → M (Result Unit)
  unfolding query bigint_param
  update_role chat_id name id =
      if is_empty chat_id && is_empty id
      then pure (err (message (lit "chatID or id need to be set")))
      else let named : RoleRow → Bool = λ r. r.name == name in
        if is_empty id
        then query env (bigint_param env chat_id (λ c. update_roles (some c) none named))
        else if is_empty chat_id
        then query env (bigint_param env id (λ i. update_roles none (some i) named))
        else query env (
            bigint_param env chat_id
              (λ c. bigint_param env id (λ i. update_roles (some c) (some i) named)))

  unfoldable pub get_member_roles : Str → Bool → M (Result (List Role))
  unfolding member_role query bigint_param
  get_member_roles user_id sig =
      check
        (query env (
          bigint_param env user_id
            (λ u. select (λ db. map member_role (Database.get_member_roles u sig db)))))
        (λ e. pure (
          err (
            message (
              lit "error getting user "
              ++ (role_type sig ++ (lit "s (" ++ (user_id ++ (lit "): " ++ env.error_text e))))))))
        (λ roles. pure (ok roles))

  -- A sig is synchronised by default: the column takes the flag `sig`.
  unfoldable pub insert_role : Str → Str → Str → Bool → Bool → M (Result ℕ)
  unfolding query
  insert_role name ticker chat_type sig joinable =
      check (query env (insert_into_roles sig joinable name ticker chat_type sig))
        (on_unique role_exists) (λ id. pure (ok id))

  -- The loop of DeleteRole: the errors are logged only.
  unfoldable pub delete_role_loop : List RoleFilter → M Unit
  delete_role_loop [] = pure tt
  delete_role_loop (rf ∷ rfs) = delete_filter_membership env rf.id [] >>= λ _.
      delete_filter_by_id env rf.id >>= λ _.
      delete_role_filter env rf.id >>= λ _. delete_role_loop rfs

  unfoldable pub delete_role : Str → Bool → M (Result Unit)
  unfolding delete_role_loop get_role_filters query
  delete_role ticker sig =
      check (get_role_filters env sig ticker) (λ e. pure (err e))
        λ role_filters.
          delete_role_loop role_filters
          >> query env (execute (delete_from_roles (λ r. r.role_nick == ticker && r.sig == sig)))
