-- ===== src/Roles/Filters.antt =====
-- internal/roles/roles.go: the filters of a role.
use chremoas_ng.Base.{Bool, none, some, List, [], true, false, ◌++◌, if◌then◌else◌, ℕ, Option}
use chremoas_ng.Base.Text.{Str, lit, atoi}
use chremoas_ng.Payloads.{Filter}
use chremoas_ng.Common.Messages.{send_success, send_error}
use chremoas_ng.Filters.Members.{filter_text}
use chremoas_ng.Storage.Filters.{get_filter, delete_filter}
use chremoas_ng.Storage.Roles.{get_role}
use chremoas_ng.Storage.RoleFilters.{insert_role_filter}
use chremoas_ng.World.{
  Env, M, pure, check, MessageSend, is_no_filter, is_no_role, is_role_filter_exists,
  is_not_filter_member,
}
use chremoas_ng.Roles.Helpers.{as_admin}

-- A negative id refers to no role, nor does 0; ids start at 1.
role_number : Bool × ℕ → ℕ
role_number (true, n) = 0
role_number (false, n) = n

module _ (env : Env) where
  -- The role filter, once the role's id is a number.
  unfoldable pub insert_filter : Filter → Str → Option (Bool × ℕ) → M (List MessageSend)
  unfolding role_number
  insert_filter filter ticker none =
      pure (send_error none (lit "Error converting role ID from string to int"))
  insert_filter filter ticker (some n) =
      check (insert_role_filter env (role_number n) (some filter.id))
        (λ e. pure (
          if is_role_filter_exists e
          then send_error none (lit "Role filter already exists")
          else send_error none (lit "Error inserting role filter: " ++ env.error_text e)))
        (λ _. pure (
          send_success none
            (lit "Added filter " ++ (filter_text filter ++ (lit " to role " ++ ticker)))))

  unfoldable pub add_filter : Bool → Str → Str → M (List MessageSend)
  unfolding insert_filter
  add_filter sig name ticker =
      check (get_filter env name)
        (λ e. pure (
          if is_no_filter e
          then send_error none (lit "No such filter")
          else send_error none (lit "Error getting filter: " ++ env.error_text e)))
        λ filter.
          check (get_role env [] ticker (some sig))
            (λ e. pure (
              if is_no_role e
              then send_error none (lit "No such role: " ++ ticker)
              else send_error none (lit "Error getting role: " ++ env.error_text e)))
            (λ role. insert_filter filter ticker (atoi role.id))

  unfoldable pub authed_add_filter : Bool → Str → Str → Str → M (List MessageSend)
  unfolding add_filter
  authed_add_filter sig filter ticker author =
      as_admin env sig (some author) author (add_filter sig filter ticker)

  unfoldable pub remove_filter : Bool → Str → Str → M (List MessageSend)
  remove_filter sig name ticker =
      check (delete_filter env name)
        (λ e. pure (
          if is_not_filter_member e
          then send_error none (lit "User not a member of filter: " ++ name)
          else send_error none (lit "Error deleting filter: " ++ env.error_text e)))
        (λ _.
          pure
            (send_success none (lit "Removed filter " ++ (name ++ (lit " from role " ++ ticker)))))

  unfoldable pub authed_remove_filter : Bool → Str → Str → Str → M (List MessageSend)
  unfolding remove_filter
  authed_remove_filter sig filter ticker author =
      as_admin env sig (some author) author (remove_filter sig filter ticker)
