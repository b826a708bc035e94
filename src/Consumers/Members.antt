-- ===== src/Consumers/Members.antt =====
-- internal/discord/members/members.go: a user gains or loses a role in Discord.
use chremoas_ng.Base.{
  false, not, Option, none, some, List, [], ◌∷◌, ◌==◌, bytes_eq, if◌then◌else◌, find,
}
use chremoas_ng.Base.Text.{Str, lit, is_empty}
use chremoas_ng.Payloads.{Action, MemberPayload}
use chremoas_ng.Common.CheckAndDelete.{check_and_delete}
use chremoas_ng.Common.Session.{guild_roles, ask, ignore_role}
use chremoas_ng.Storage.Roles.{get_role_by_chat_id}
use chremoas_ng.World.{
  Env, DiscordRole, member_role_add, member_role_remove, M, pure, ◌>>=◌, check, Error,
}
use chremoas_ng.Consumers.Answers.{
  Answer, acked, rejected, dropped, requeued, acknowledged, handle_messages,
}

-- The name of the role, or the empty text.
name_of : Option DiscordRole → Str
name_of none = []
name_of (some r) = r.name

unfoldable pub role_name : Str → List DiscordRole → Str
unfolding name_of
role_name id roles = name_of (find (λ r. id == r.id) roles)

-- `json.Unmarshal` of a body.
module _ (env : Env) (decode : Str → Option MemberPayload) where
  -- After an error of Discord, a user who is gone is forgotten, with no answer to the delivery.
  unfoldable pub failed : Str → Error → M (List Answer)
  failed member_id e =
      check_and_delete env member_id e >>= λ handled. if handled.0 then pure [] else requeued

  -- The switch on the action.
  unfoldable pub change_member : MemberPayload → Action → M (List Answer)
  unfolding failed
  change_member body Action.delete =
      check (ask env (member_role_remove body.guild_id body.member_id body.role_id))
        (failed body.member_id) (λ _. acknowledged)
  change_member body (Action.unknown text) = acknowledged
  change_member body _ =
      check (get_role_by_chat_id env body.role_id) (λ e. dropped)
        λ role.
          if not role.sync
          then dropped
          else check (ask env (member_role_add body.guild_id body.member_id body.role_id))
              (failed body.member_id) (λ _. acknowledged)

  unfoldable pub handle_payload : MemberPayload → M (List Answer)
  unfolding role_name change_member ignore_role
  handle_payload body =
      if body.role_id == lit "0"
      then dropped
      else check (guild_roles env) (λ e. pure [])
          λ roles.
            if ignore_role env (role_name body.role_id roles)
            then dropped
            else change_member body body.action

  unfoldable pub handle_decoded : Option MemberPayload → M (List Answer)
  unfolding handle_payload
  handle_decoded none = dropped
  handle_decoded (some body) = handle_payload body

  -- An empty body is acknowledged and rejected.
  unfoldable pub handle_message : Str → M (List Answer)
  unfolding handle_decoded
  handle_message body =
      if is_empty body then pure (acked ∷ rejected false ∷ []) else handle_decoded (decode body)

  -- HandleMessage over the deliveries of its channel.
  unfoldable pub handle_member_messages : List Str → M (List (List Answer))
  unfolding handle_message
  handle_member_messages bodies = handle_messages handle_message bodies
