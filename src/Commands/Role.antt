-- ===== src/Commands/Role.antt =====
-- internal/commands/role.go: `!role`.
use chremoas_ng.Base.{Bool, false, some, List, [], ◌∷◌, ◌==◌, bytes_eq, if◌then◌else◌}
use chremoas_ng.Base.Text.{Str, lit}
use chremoas_ng.Common.Mention.{is_discord_user, extract_user_id}
use chremoas_ng.Common.Messages.{send_error}
use chremoas_ng.Roles.Listing.{keys, types, list, list_members, list_user_roles, info}
use chremoas_ng.Roles.Changes.{authed_add, authed_destroy}
use chremoas_ng.Roles.Update.{authed_update}
use chremoas_ng.World.{Env, M, pure, ◌>>=◌, MessageSend}
use chremoas_ng.Commands.Help.{get_help, split_spaces, join_spaces}

unfoldable pub role_usage : Str
role_usage = lit "!role <subcommand> <parameters>"

unfoldable pub role_subcommands : Str
role_subcommands =
    lit
      "\n    list: List all Roles that are set to sync\n    create: Add Role\n    destroy: Delete role\n    info: Get Role Info\n    keys: Get valid role keys\n    types: Get valid role types\n    set: Set role key\n    list members: List Role members\n    list membership: List user Roles\n"

-- The roles (or sigs) of the author, or of a user who is mentioned.
unfoldable pub membership_of : Env → Bool → Str → List Str → M (List MessageSend)
membership_of env sig author [] = list_user_roles env sig author
membership_of env sig author (user ∷ args) =
    if is_discord_user user
    then (extract_user_id user >>= λ id. list_user_roles env sig id)
    else pure (send_error (some author) (lit "member name must be a discord user"))

-- The members of a role that is named, or help.
unfoldable pub members_of : Env → Bool → M (List MessageSend) → List Str → M (List MessageSend)
members_of env sig help [] = help
members_of env sig help (name ∷ args) = list_members env sig name

module _ (env : Env) (channel_id author : Str) where
  role_help : Str → Str → M (List MessageSend)
  role_help title usage = pure (get_help title usage [])

  -- What follows `!role list`.
  unfoldable pub role_list : List Str → M (List MessageSend)
  unfolding role_help
  role_list [] = list env false false channel_id
  role_list (c ∷ args) =
      if c == lit "members"
      then members_of env false
          (role_help (lit "!role list members help") (lit "!role list members <role_name>")) args
      else if c == lit "membership"
      then membership_of env false author args
      else pure (get_help (lit "!role list help") role_usage role_subcommands)

  unfoldable pub role_create : List Str → M (List MessageSend)
  unfolding role_help
  role_create (ticker ∷ word ∷ words) =
      authed_add env false false ticker (join_spaces (word ∷ words)) (lit "discord") author
  role_create _ =
      role_help (lit "!role create help") (lit "!role create <role_name> <role_description>")

  unfoldable pub role_destroy : List Str → M (List MessageSend)
  unfolding role_help
  role_destroy (ticker ∷ args) = authed_destroy env false ticker author
  role_destroy [] = role_help (lit "!role destroy help") (lit "!role destroy <role_name>")

  unfoldable pub role_set : List Str → M (List MessageSend)
  unfolding role_help
  role_set (ticker ∷ key ∷ value ∷ args) = authed_update env false ticker key value author
  role_set _ = role_help (lit "!role set help") (lit "!role set <role_name> <key> <value>")

  unfoldable pub role_info : List Str → M (List MessageSend)
  unfolding role_help
  role_info (ticker ∷ args) = info env false ticker
  role_info [] = role_help (lit "!role info help") (lit "!role info <role_name>")

  -- The switch on `cmdStr[1]`.
  unfoldable pub role_switch : List Str → M (List MessageSend)
  role_switch (command ∷ sub ∷ args) =
      if sub == lit "list"
      then role_list args
      else if sub == lit "create"
      then role_create args
      else if sub == lit "destroy"
      then role_destroy args
      else if sub == lit "set"
      then role_set args
      else if sub == lit "info"
      then role_info args
      else if sub == lit "keys"
      then pure keys
      else if sub == lit "types"
      then pure types
      else pure (get_help (lit "!role help") role_usage role_subcommands)
  role_switch _ = pure (get_help (lit "!role help") role_usage role_subcommands)

  unfoldable pub do_role : Str → M (List MessageSend)
  unfolding role_switch
  do_role content = role_switch (split_spaces content)
