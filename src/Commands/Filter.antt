-- ===== src/Commands/Filter.antt =====
-- internal/commands/filter.go: `!filter`.
use chremoas_ng.Base.{List, [], ◌∷◌, ◌==◌, bytes_eq, if◌then◌else◌}
use chremoas_ng.Base.Text.{Str, lit}
use chremoas_ng.Common.StringSets.{StringSets}
use chremoas_ng.Filters.Commands
use chremoas_ng.Filters.Members.{authed_add_member, authed_remove_member}
use chremoas_ng.World.{Env, M, pure, ◌>>=◌, MessageSend}
use chremoas_ng.Commands.Help.{get_help, split_spaces, join_spaces}

unfoldable pub filter_usage : Str
filter_usage = lit "!filter <subcommand> <arguments>"

unfoldable pub filter_subcommands : Str
filter_subcommands =
    lit
      "\n    list: List all Filters\n    create: Add Filter\n    destroy: Delete Filter\n    add: Add Filter Member\n    remove: Remove Filter Member\n    list members: List all Filter Members\n"

module _ (env : Env) (lib : StringSets) (channel_id author : Str) where
  usage : M (List MessageSend)
  usage = pure (get_help (lit "!filter help") filter_usage filter_subcommands)

  list_usage : M (List MessageSend)
  list_usage =
      pure (get_help (lit "!filter list help") (lit "!filter list members <filter_name>") [])

  -- What follows `!filter list`.
  unfoldable pub filter_list : List Str → M (List MessageSend)
  unfolding list_usage
  filter_list [] = Commands.list env channel_id
  filter_list (c ∷ []) = list_usage
  filter_list (c ∷ name ∷ args) =
      if c == lit "members" then Commands.list_members env name channel_id else list_usage

  unfoldable pub filter_create : List Str → M (List MessageSend)
  filter_create (name ∷ word ∷ words) =
      Commands.authed_add env name (join_spaces (word ∷ words)) author >>= λ reply. pure reply.0
  filter_create _ = pure (
      get_help (lit "!filter create help") (lit "!filter create <filter_name> <filter_description>")
        [])

  unfoldable pub filter_destroy : List Str → M (List MessageSend)
  filter_destroy (name ∷ args) = Commands.authed_delete env name author
  filter_destroy _ =
      pure (get_help (lit "!filter destroy help") (lit "!filter destroy <filter_name>") [])

  unfoldable pub filter_add : List Str → M (List MessageSend)
  filter_add (user ∷ filter ∷ args) = authed_add_member env lib user filter author
  filter_add _ =
      pure (get_help (lit "!filter add help") (lit "!filter add <user> <filter_name>") [])

  unfoldable pub filter_remove : List Str → M (List MessageSend)
  filter_remove (user ∷ filter ∷ args) = authed_remove_member env lib user filter author
  filter_remove _ =
      pure (get_help (lit "!filter remove help") (lit "!filter remove <user> <filter_name>") [])

  -- The switch on `cmdStr[1]`.
  unfoldable pub filter_switch : List Str → M (List MessageSend)
  unfolding usage
  filter_switch (command ∷ sub ∷ args) =
      if sub == lit "list"
      then filter_list args
      else if sub == lit "create"
      then filter_create args
      else if sub == lit "destroy"
      then filter_destroy args
      else if sub == lit "add"
      then filter_add args
      else if sub == lit "remove"
      then filter_remove args
      else usage
  filter_switch _ = usage

  unfoldable pub do_filter : Str → M (List MessageSend)
  do_filter content = filter_switch (split_spaces content)
