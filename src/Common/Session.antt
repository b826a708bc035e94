-- ===== src/Common/Session.antt =====
-- Calls of Discord and of the queues: internal/common/discord.go, the publication of a member
-- or a role payload (internal/queue/producer.go), and an embed sent to a channel.
use chremoas_ng.Base.{Bool, none, some, List, [], ◌∷◌, ◌++◌, if◌then◌else◌, ◌==◌, bytes_eq, any}
use chremoas_ng.Base.Text.{Str, lit, is_empty}
use chremoas_ng.Payloads.{MemberPayload, RolePayload}
use chremoas_ng.Common.Embed.{Embed}
use chremoas_ng.World.{
  Env, Member, DiscordRole, Request, role_create, M, tick, done, Result, ok, err,
}

-- What is shown for the answer to `GuildMember`: the nickname, the user name, or the id.
display_name : Str → Result Member → Str
display_name user_id (err e) = user_id
display_name user_id (ok member) = if is_empty member.nick then member.username else member.nick

module _ (env : Env) where
  unfoldable pub get_username : Str → M Str
  unfolding display_name
  get_username user_id w = done (display_name user_id (env.guild_member w.clock user_id)) (tick w)

  -- `deps.Session.GuildMember`
  unfoldable pub guild_member : Str → M (Result Member)
  guild_member user_id w = done (env.guild_member w.clock user_id) (tick w)

  -- `deps.MembersProducer.Publish` of a marshalled payload
  unfoldable pub publish_member : MemberPayload → M (Result Unit)
  publish_member payload w = elim (env.publish_fault w.clock) [
    | some e ↦ done (err e) (tick w)
    | none ↦ done (ok tt) (record (tick w) { members_queue = w.members_queue ++ (payload ∷ []) })
  ]

  -- `deps.Session.ChannelMessageSendEmbed`
  unfoldable pub send_embed : Str → Embed → M (Result Unit)
  send_embed channel e w = elim (env.send_fault w.clock) [
    | some f ↦ done (err f) (tick w)
    | none ↦ done (ok tt) (record (tick w) { sent = w.sent ++ ((channel, e) ∷ []) })
  ]

  -- `deps.RolesProducer.Publish` of a marshalled payload
  unfoldable pub publish_role : RolePayload → M (Result Unit)
  publish_role payload w = elim (env.publish_fault w.clock) [
    | some e ↦ done (err e) (tick w)
    | none ↦ done (ok tt) (record (tick w) { roles_queue = w.roles_queue ++ (payload ∷ []) })
  ]

  -- `deps.Session.GuildRoles`
  unfoldable pub guild_roles : M (Result (List DiscordRole))
  guild_roles w = done (env.guild_roles w.clock) (tick w)

  -- A request to Discord that changes something there.
  unfoldable pub ask : Request → M (Result Unit)
  ask request w = elim (env.rest_fault w.clock) [
    | some e ↦ done (err e) (tick w)
    | none ↦ done (ok tt) (record (tick w) { requests = w.requests ++ (request ∷ []) })
  ]

  -- `deps.Session.GuildRoleCreate`: the id of the new role
  unfoldable pub guild_role_create : Str → M (Result Str)
  guild_role_create guild w = elim (env.rest_fault w.clock) [
    | some e ↦ done (err e) (tick w)
    | none ↦
        done (ok (env.created_id w.clock))
          (record (tick w) { requests = w.requests ++ (role_create guild ∷ []) })
  ]

  -- IgnoreRole; the list comes from the configuration.
  unfoldable pub ignore_role : Str → Bool
  ignore_role role = any (λ r. role == r) (env.ignored_roles ++ (lit "@everyone" ∷ []))
