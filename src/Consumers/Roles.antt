-- ===== src/Consumers/Roles.antt =====
-- internal/discord/roles/roles.go: a role is made, changed or deleted in Discord.
use chremoas_ng.Base.{
  Bool, true, not, ◌||◌, Option, none, some, List, [], ◌==◌, bytes_eq, nat_eq, if◌then◌else◌, any,
}
use chremoas_ng.Base.Text.{Str, is_empty}
use chremoas_ng.Payloads.{Action, RolePayload}
use chremoas_ng.Common.CheckAndDelete.{status_of}
use chremoas_ng.Common.Session.{guild_roles, ask, guild_role_create, ignore_role}
use chremoas_ng.Storage.Roles.{get_role, update_role}
use chremoas_ng.World.{
  Env, role_edit, role_delete, M, pure, panic, ◌>>=◌, check, Error, Result, ok, err,
}
use chremoas_ng.Consumers.Answers.{Answer, dropped, requeued, acknowledged, handle_messages}

module _ (env : Env) where
  -- A failure to fetch the roles counts as a role that exists.
  unfoldable pub exists : Str → M Bool
  exists name =
      check (guild_roles env) (λ e. pure true) (λ roles. pure (any (λ r. name == r.name) roles))

  unfoldable pub edit_role : RolePayload → Str → M (Result Unit)
  edit_role payload id = ask env (
      role_edit payload.guild_id id payload.role.name payload.role.color payload.role.hoist
        payload.role.permissions payload.role.mentionable)

  -- The new id is stored, and used whether or not that works.
  unfoldable pub create_role : RolePayload → M (Result Unit)
  unfolding edit_role
  create_role payload =
      check (guild_role_create env payload.guild_id) (λ e. pure (err e))
        (λ id. update_role env id payload.role.name [] >>= λ _. edit_role payload id)

  unfoldable pub upsert : RolePayload → M (Result Unit)
  unfolding edit_role create_role
  upsert payload =
      check (get_role env payload.role.name payload.role.short_name none) (λ e. pure (err e))
        λ role_data.
          if not role_data.sync
          then pure (ok tt)
          else (exists payload.role.name >>= λ found.
              if found
              then if is_empty payload.guild_id
                  || is_empty payload.role.id
                  || is_empty payload.role.name
                then pure (ok tt)
                else edit_role payload payload.role.id
              else create_role payload)

  -- `err.(*discordgo.RESTError)` panics on another error.
  unfoldable pub after_delete : Error → M (Result Unit)
  unfolding status_of
  after_delete e = elim (status_of e) [
    | none ↦ λ w. panic w
    | some status ↦ if status == 404 then pure (ok tt) else pure (err e)
  ]

  unfoldable pub delete : RolePayload → M (Result Unit)
  unfolding after_delete
  delete payload =
      check (ask env (role_delete payload.guild_id payload.role.id)) after_delete
        (λ _. pure (ok tt))

-- `json.Unmarshal` of a body.
module _ (env : Env) (decode : Str → Option RolePayload) where
  -- The switch on the action.
  unfoldable pub change_role : RolePayload → Action → M (Result Unit)
  unfolding upsert delete
  change_role body Action.upsert = upsert env body
  change_role body Action.delete = delete env body
  change_role body _ = pure (ok tt)

  unfoldable pub handle_payload : RolePayload → M (List Answer)
  unfolding change_role ignore_role
  handle_payload body =
      if ignore_role env body.role.name
      then dropped
      else check (change_role body body.action) (λ e. requeued) (λ _. acknowledged)

  unfoldable pub handle_decoded : Option RolePayload → M (List Answer)
  unfolding handle_payload
  handle_decoded none = dropped
  handle_decoded (some body) = handle_payload body

  unfoldable pub handle_message : Str → M (List Answer)
  unfolding handle_decoded
  handle_message body = if is_empty body then dropped else handle_decoded (decode body)

  -- HandleMessage over the deliveries of its channel.
  unfoldable pub handle_role_messages : List Str → M (List (List Answer))
  unfolding handle_message
  handle_role_messages bodies = handle_messages handle_message bodies
