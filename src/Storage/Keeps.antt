-- ===== src/Storage/Keeps.antt =====
-- The functions of internal/storage that only read keep whatever holds of the tables; an insertion of a
-- member keeps what its statement keeps.
use chremoas_ng.Base.{ℕ, Bool, Option, none, List}
use chremoas_ng.Base.Text.{Str}
use chremoas_ng.Database.{Db, insert_into_filter_membership}
use chremoas_ng.World.{Env}
use chremoas_ng.World.Keeps.{Keeps, Respects, keeps_rules}
use chremoas_ng.Storage.Filters.{
  get_filter, get_filters, get_ticker_filters, list_filter_members, add_filter_membership,
  get_role_members,
}
use chremoas_ng.Storage.Permissions.{
  get_permission, get_permissions, list_permission_members, get_user_permissions,
  get_permission_count,
}
use chremoas_ng.Storage.Roles.{
  get_role_count, get_role, get_role_by_chat_id, do_get_roles, get_role_by_type, get_roles_by_type,
  get_member_roles,
}
use chremoas_ng.Storage.RoleFilters.{get_role_filters}

module _ {I : Db → Type 0} (env : Env) where
  pub get_filter-Keeps : (name : Str) → Keeps I (get_filter env name)
  unfolding get_filter
  get_filter-Keeps name = search keeps_rules

  pub get_filters-Keeps : Keeps I (get_filters env)
  unfolding get_filters
  get_filters-Keeps = search keeps_rules

  pub get_ticker_filters-Keeps :
      (sig : Bool) (ticker : Str) → Keeps I (get_ticker_filters env sig ticker)
  unfolding get_ticker_filters
  get_ticker_filters-Keeps sig ticker = search keeps_rules

  pub list_filter_members-Keeps : (filter : Str) → Keeps I (list_filter_members env filter)
  unfolding list_filter_members
  list_filter_members-Keeps filter = search keeps_rules

  pub get_role_members-Keeps : (filter_list : List ℕ) → Keeps I (get_role_members env filter_list)
  unfolding get_role_members
  get_role_members-Keeps filter_list = search keeps_rules

  pub get_role_filters-Keeps : (sig : Bool) (name : Str) → Keeps I (get_role_filters env sig name)
  unfolding get_role_filters
  get_role_filters-Keeps sig name = search keeps_rules

  pub get_permission-Keeps : (name : Str) → Keeps I (get_permission env name)
  unfolding get_permission
  get_permission-Keeps name = search keeps_rules

  pub get_permissions-Keeps : Keeps I (get_permissions env)
  unfolding get_permissions
  get_permissions-Keeps = search keeps_rules

  pub list_permission_members-Keeps : (name : Str) → Keeps I (list_permission_members env name)
  unfolding list_permission_members
  list_permission_members-Keeps name = search keeps_rules

  pub get_user_permissions-Keeps : (user_id : Str) → Keeps I (get_user_permissions env user_id)
  unfolding get_user_permissions
  get_user_permissions-Keeps user_id = search keeps_rules

  pub get_permission_count-Keeps :
      (author_id : Str) (permission_id : ℕ)
      → Keeps I (get_permission_count env author_id permission_id)
  unfolding get_permission_count
  get_permission_count-Keeps author_id permission_id = search keeps_rules

  pub get_role_count-Keeps : (sig : Bool) (ticker : Str) → Keeps I (get_role_count env sig ticker)
  unfolding get_role_count
  get_role_count-Keeps sig ticker = search keeps_rules

  pub get_role-Keeps :
      (name ticker : Str) (sig : Option Bool) → Keeps I (get_role env name ticker sig)
  unfolding get_role
  get_role-Keeps name ticker sig = search keeps_rules

  pub get_role_by_chat_id-Keeps : (chat_id : Str) → Keeps I (get_role_by_chat_id env chat_id)
  unfolding get_role_by_chat_id
  get_role_by_chat_id-Keeps chat_id = search keeps_rules

  pub do_get_roles-Keeps :
      (sig : Bool) (short_name : Option Str) → Keeps I (do_get_roles env sig short_name)
  unfolding do_get_roles
  do_get_roles-Keeps sig short_name = search keeps_rules

  pub get_role_by_type-Keeps :
      (sig : Bool) (short_name : Str) → Keeps I (get_role_by_type env sig short_name)
  unfolding get_role_by_type
  get_role_by_type-Keeps sig short_name = search (keeps_rules, do_get_roles-Keeps)

  pub get_roles_by_type-Keeps : (sig : Bool) → Keeps I (get_roles_by_type env sig)
  unfolding get_roles_by_type
  get_roles_by_type-Keeps sig = do_get_roles-Keeps sig none

  pub get_member_roles-Keeps :
      (user_id : Str) (sig : Bool) → Keeps I (get_member_roles env user_id sig)
  unfolding get_member_roles
  get_member_roles-Keeps user_id sig = search keeps_rules

  pub add_filter_membership-Keeps :
      (filter_id : ℕ) (user_id : Str)
      → ((f u : ℕ) → Respects I (insert_into_filter_membership f u))
      → Keeps I (add_filter_membership env filter_id user_id)
  unfolding add_filter_membership
  add_filter_membership-Keeps filter_id user_id insert = search (keeps_rules, insert)
