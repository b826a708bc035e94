-- ===== src/Filters/Members.antt =====
-- internal/filters/filters.go: AddMember and RemoveMember.
use chremoas_ng.Base.{none, some, List, [], ◌++◌, ◌==◌, nat_eq, if◌then◌else◌}
use chremoas_ng.Base.Text.{Str, lit, decimal}
use chremoas_ng.Payloads.{Action, Filter}
use chremoas_ng.Common.Messages.{send_success, send_error, send_fatal}
use chremoas_ng.Common.Session.{get_username}
use chremoas_ng.Common.StringSets.{StringSets}
use chremoas_ng.Common.Membership.{user_id_or, get_membership}
use chremoas_ng.Perms.{can_perform}
use chremoas_ng.Storage.Filters.{get_filter, add_filter_membership, delete_filter_membership}
use chremoas_ng.World.{
  Env, M, pure, ◌>>=◌, ◌>>◌, check, Error, MessageSend, is_no_filter, is_filter_member,
}
use chremoas_ng.Filters.Queue.{queue_updates}

-- `fmt` of a payloads.Filter under %s.
unfoldable pub filter_text : Filter → Str
filter_text f =
    lit "{%!s(int="
    ++ (decimal f.id ++ (lit ") " ++ (f.name ++ (lit " " ++ (f.description ++ lit "}")))))

abbrev zero_filter : Filter
zero_filter = record { id = 0; name = []; description = [] }

module _ (env : Env) where
  membership_error : Error → M (List MessageSend)
  membership_error e = pure (send_fatal none (lit "Error getting membership: " ++ env.error_text e))

  not_a_user : M (List MessageSend)
  not_a_user = pure (send_error none (lit "second argument must be a discord user"))

  -- `perms.CanPerform(ctx, author, "role_admins", deps)` before a command.
  unfoldable pub as_role_admin : {A : Type 0} → Str → (List MessageSend → A) → M A → M A
  as_role_admin author refused next =
      check (can_perform env author (lit "role_admins"))
        (λ e.
          pure (
            refused
              (send_error (some author) (lit "User doesn't have permission to this command"))))
        (λ _. next)

module _ (env : Env) (lib : StringSets) where
  open lib use {difference, len, to_slice}

  -- What AddMember does with the roles that were gained.
  unfoldable pub finish_add : Str → Str → lib.StringSet → M (List MessageSend)
  finish_add filter user_id add_set =
      if len add_set == 0
      then (get_username env user_id >>= λ name.
          pure
            (send_error none (name ++ (lit " already a member of " ++ (filter ++ lit " (maybe)")))))
      else (queue_updates env Action.upsert user_id (to_slice add_set)
          >> pure (
              send_success none
                (lit "Added <@" ++ (user_id ++ (lit "> to `" ++ (filter ++ lit "`"))))))

  -- What follows once the user's id is known.
  unfoldable pub add_member_by_id : Str → Str → M (List MessageSend)
  unfolding membership_error
  add_member_by_id filter user_id =
      check (get_membership lib env user_id) (membership_error env) λ before.
        check (get_filter env filter)
          (λ e. pure (
            if is_no_filter e
            then send_error none (lit "No such filter: " ++ filter)
            else send_error none (lit "Error getting filter: " ++ env.error_text e)))
          λ filter_data.
            check (add_filter_membership env filter_data.id user_id)
              (λ e.
                if is_filter_member e
                then (get_username env user_id >>= λ name.
                    pure (send_error none (name ++ (lit " Already member of " ++ filter))))
                else membership_error env e)
              λ _.
                check (get_membership lib env user_id) (membership_error env)
                  λ after. finish_add filter user_id (difference after before)

  unfoldable pub add_member : Str → Str → M (List MessageSend)
  unfolding add_member_by_id not_a_user user_id_or
  add_member user_id filter = user_id_or (not_a_user env) user_id (add_member_by_id filter)

  unfoldable pub authed_add_member : Str → Str → Str → M (List MessageSend)
  unfolding as_role_admin
  authed_add_member user_id filter author =
      as_role_admin env author (λ reply. reply) (add_member user_id filter)

  -- What RemoveMember does with the roles that were lost.
  unfoldable pub finish_remove : Filter → Str → lib.StringSet → M (List MessageSend)
  finish_remove filter user_id remove_set =
      if len remove_set == 0
      then pure (
          send_error none
            (lit "<@" ++ (user_id ++ (lit "> not a member of `" ++ (filter.name ++ lit "`")))))
      else (queue_updates env Action.delete user_id (to_slice remove_set)
          >> get_username env user_id
          >>= λ name. pure (
              send_success none
                (lit "Removed " ++ (name ++ (lit " from `" ++ (filter.name ++ lit "`"))))))

  -- What follows once the user's id is known; the membership before was read under the argument.
  unfoldable pub remove_member_by_id : lib.StringSet → Str → Str → M (List MessageSend)
  unfolding membership_error filter_text
  remove_member_by_id before filter_name user_id =
      check (get_filter env filter_name)
        (λ e. pure (
          if is_no_filter e
          then send_error none (lit "No such filter: " ++ filter_text zero_filter)
          else send_error none (lit "Error getting filter: " ++ filter_text zero_filter)))
        λ filter.
          check (delete_filter_membership env filter.id user_id)
            (λ e. get_username env user_id >>= λ name. pure (
              send_error none (
                lit "Error removing "
                ++ (name ++ (lit " from filter " ++ (filter_text filter ++ lit " membership"))))))
            λ _.
              check (get_membership lib env user_id) (membership_error env)
                λ after. finish_remove filter user_id (difference before after)

  unfoldable pub remove_member : Str → Str → M (List MessageSend)
  unfolding membership_error not_a_user user_id_or remove_member_by_id
  remove_member user_id filter_name =
      check (get_membership lib env user_id) (membership_error env)
        λ before. user_id_or (not_a_user env) user_id (remove_member_by_id before filter_name)

  unfoldable pub authed_remove_member : Str → Str → Str → M (List MessageSend)
  unfolding as_role_admin
  authed_remove_member user_id filter author =
      as_role_admin env author (λ reply. reply) (remove_member user_id filter)
