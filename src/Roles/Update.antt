-- ===== src/Roles/Update.antt =====
-- internal/roles/roles.go: Update, and the two functions that fetch what it compares.
use chremoas_ng.Base.{
  Bool, not, ◌||◌, none, some, List, [], ◌∷◌, ◌++◌, ◌==◌, nat_eq, bytes_eq, bool_eq, if◌then◌else◌,
  Option, find,
}
use chremoas_ng.Base.Text.{Str, lit, is_empty}
use chremoas_ng.Payloads.{Action, Role, zero_role}
use chremoas_ng.Common.Messages.{send_success, send_error, send_fatal}
use chremoas_ng.Common.Session.{guild_roles}
use chremoas_ng.Storage.Roles.{role_type, get_role_by_type, update_role}
use chremoas_ng.Storage.RoleValues.{update_role_values}
use chremoas_ng.World.{
  Env, DiscordRole, M, pure, ◌>>=◌, check, MessageSend, Result, ok, err, message,
}
use chremoas_ng.Roles.Helpers.{role_keys, valid_list_item, queue_update, as_admin}

-- What Update compares of the two roles.
unfoldable pub roles_differ : Role → DiscordRole → Bool
roles_differ r d =
    not (r.mentionable == d.mentionable)
    || not (r.hoist == d.hoist)
    || not (r.color == d.color)
    || not (r.permissions == d.permissions)

named_role : Str → Option DiscordRole → Result DiscordRole
named_role name none = err (message (lit "no such role: " ++ name))
named_role name (some r) = ok r

updated : Bool → Str → List MessageSend
updated sig ticker =
    send_success none (lit "Updated " ++ (role_type sig ++ (lit " `" ++ (ticker ++ lit "`"))))

module _ (env : Env) where
  unfoldable pub get_chremoas_role : Bool → Str → M (Result Role)
  get_chremoas_role sig ticker =
      check (get_role_by_type env sig ticker) (λ e. pure (err e)) (λ role. pure (ok role))

  unfoldable pub get_discord_role : Str → M (Result DiscordRole)
  unfolding named_role
  get_discord_role name =
      check (guild_roles env) (λ e. pure (err e))
        (λ roles. pure (named_role name (find (λ r. r.name == name) roles)))

  unfoldable pub queue_upsert : Bool → Str → Role → M (List MessageSend)
  unfolding updated
  queue_upsert sig ticker role =
      check (queue_update env role Action.upsert)
        (λ e. pure (
          send_fatal none
            (lit "error updating role for " ++ (role_type sig ++ (lit ": " ++ env.error_text e)))))
        (λ _. pure (updated sig ticker))

  -- The role exists in Discord; an error of UpdateRole is logged only.
  unfoldable pub compare_roles : Bool → Str → Bool → Role → DiscordRole → M (List MessageSend)
  unfolding updated
  compare_roles sig ticker sync role d_role =
      (if role.id == d_role.id then pure (ok tt) else update_role env d_role.id role.name [])
      >>= λ _.
          if not sync
          then pure (
              send_success none (
                lit "Updated "
                ++ (role_type sig ++ (lit " in db but not Discord (sync not set): " ++ ticker))))
          else if roles_differ role d_role
          then queue_upsert sig ticker role
          else pure (updated sig ticker)

  -- What follows GetRoleByType, of which only the flag is used.
  unfoldable pub update_from : Bool → Str → List (Str × Str) → Role → M (List MessageSend)
  unfolding compare_roles
  update_from sig ticker values role_data =
      check (update_role_values env sig ticker values)
        (λ e. pure (send_error none (lit "Error updating role")))
        λ _.
          check (get_chremoas_role sig ticker)
            (λ e. pure (
              send_fatal none (
                lit "error fetching "
                ++ (role_type sig ++ (lit " from db: " ++ env.error_text e)))))
            λ role.
              check (get_discord_role role.name) (λ e. queue_upsert sig ticker role)
                (compare_roles sig ticker role_data.sync role)

  -- The error of GetRoleByType is overwritten, and the zero role stands for the missing one.
  unfoldable pub update : Bool → Str → List (Str × Str) → M (List MessageSend)
  unfolding update_from
  update sig ticker values =
      if is_empty ticker then pure (send_error none (lit "ticker is required")) else elim values [
        | [] ↦ pure (send_error none (lit "values is required"))
        | v ∷ vs ↦
            check (get_role_by_type env sig ticker) (λ e. update_from sig ticker (v ∷ vs) zero_role)
              (update_from sig ticker (v ∷ vs))
      ]

  unfoldable pub authed_update : Bool → Str → Str → Str → Str → M (List MessageSend)
  unfolding update
  authed_update sig ticker key value author = as_admin env sig none author (
      if not (valid_list_item key role_keys)
      then pure (send_error none (lit "`" ++ (key ++ lit "` isn't a valid Role Key")))
      else update sig ticker ((key, value) ∷ []))
