-- ===== src/Commands/Perms.antt =====
-- internal/commands/perms.go: `!perms`.
use chremoas_ng.Base.{List, [], ◌∷◌, ◌==◌, bytes_eq, if◌then◌else◌}
use chremoas_ng.Base.Text.{Str, lit}
use chremoas_ng.Perms
use chremoas_ng.World.{Env, M, pure, MessageSend}
use chremoas_ng.Commands.Help.{get_help, split_spaces}

unfoldable pub perms_usage : Str
perms_usage = lit "!perms <subcommand> <arguments>"

unfoldable pub perms_subcommands : Str
perms_subcommands =
    lit
      "\n    list: List all Permissions\n    create: Add Permission\n    destroy: Delete Permission\n    add: Add user to permission group\n    remove: Remove user from permission group\n    list users: List users in a permission group\n    list perms: List all the permissions a user has\n"

module _ (env : Env) (channel_id author : Str) where
  usage : M (List MessageSend)
  usage = pure (get_help (lit "!perms help") perms_usage perms_subcommands)

  list_usage : Str → M (List MessageSend)
  list_usage text = pure (get_help (lit "!perms list help") text [])

  -- What follows `!perms list`.
  unfoldable pub perms_list : List Str → M (List MessageSend)
  unfolding list_usage
  perms_list [] = Perms.list env channel_id
  perms_list (c ∷ []) =
      if c == lit "users"
      then list_usage (lit "!perms list users <permissions>")
      else if c == lit "perms"
      then list_usage (lit "!perms list perms <user>")
      else pure
          (get_help (lit "!perms list help") (lit "!perms list <sub-command>") perms_subcommands)
  perms_list (c ∷ arg ∷ args) =
      if c == lit "users"
      then Perms.list_members env arg
      else if c == lit "perms"
      then Perms.user_perms env arg
      else pure
          (get_help (lit "!perms list help") (lit "!perms list <sub-command>") perms_subcommands)

  unfoldable pub perms_create : List Str → M (List MessageSend)
  perms_create (name ∷ description ∷ args) = Perms.add env name description author
  perms_create _ = pure (
      get_help (lit "!perms create help")
        (lit "!perms create <permission_name> <permission_description>") [])

  unfoldable pub perms_destroy : List Str → M (List MessageSend)
  perms_destroy (name ∷ args) = Perms.delete env name author
  perms_destroy _ =
      pure (get_help (lit "!perms destroy help") (lit "!perms destroy <permission_name>") [])

  unfoldable pub perms_add : List Str → M (List MessageSend)
  perms_add (user ∷ permission ∷ args) = Perms.add_member env user permission author
  perms_add _ = pure (get_help (lit "!perms add help") (lit "!perms add <user> <permissions>") [])

  unfoldable pub perms_remove : List Str → M (List MessageSend)
  perms_remove (user ∷ permission ∷ args) = Perms.remove_member env user permission author
  perms_remove _ =
      pure (get_help (lit "!perms remove help") (lit "!perms remove <user> <permissions>") [])

  -- The switch on `cmdStr[1]`.
  unfoldable pub perms_switch : List Str → M (List MessageSend)
  unfolding usage
  perms_switch (command ∷ sub ∷ args) =
      if sub == lit "list"
      then perms_list args
      else if sub == lit "create"
      then perms_create args
      else if sub == lit "destroy"
      then perms_destroy args
      else if sub == lit "add"
      then perms_add args
      else if sub == lit "remove"
      then perms_remove args
      else usage
  perms_switch _ = usage

  unfoldable pub do_perms : Str → M (List MessageSend)
  do_perms content = perms_switch (split_spaces content)
