-- ===== src/Commands/Sig.antt =====
-- internal/commands/sig.go: `!sig`.
use chremoas_ng.Base.{
  Bool, true, false, some, none, Option, List, [], ◌∷◌, ◌++◌, ◌==◌, bytes_eq, if◌then◌else◌,
}
use chremoas_ng.Base.Text.{Str, lit}
use chremoas_ng.Common.Messages.{send_error}
use chremoas_ng.Common.StringSets.{StringSets}
use chremoas_ng.Roles.Listing.{keys, types, list, info, list_filters}
use chremoas_ng.Roles.Changes.{authed_add, authed_destroy}
use chremoas_ng.Roles.Update.{authed_update}
use chremoas_ng.Roles.Filters.{authed_add_filter, authed_remove_filter}
use chremoas_ng.Sigs as Sigs
use chremoas_ng.Storage.RoleValues.{parse_bool}
use chremoas_ng.World.{Env, M, pure, check, MessageSend}
use chremoas_ng.Commands.Help.{get_help, split_spaces, join_spaces}
use chremoas_ng.Commands.Role.{membership_of, members_of}

unfoldable pub sig_usage : Str
sig_usage = lit "!sig <subcommand> <parameters>"

unfoldable pub sig_subcommands : Str
sig_subcommands =
    lit
      "\n    list: List all SIGs\n    list members: List SIG members\n    list membership: List user SIGs\n    create: Add SIGs\n    destroy: Delete SIGs\n    info: Get SIG info\n    set: Set sig key\n    add: Add user to SIG\n    remove: Remove user from SIG\n    join: Join SIG\n    leave: Leave SIG\n\tfilter list: List filters associated with sig\n\tfilter add: Add filter to sig\n\tfilter remove: Remove filter from sig\n"

module _ (env : Env) (lib : StringSets) (channel_id author : Str) where
  sig_help : Str → Str → M (List MessageSend)
  sig_help title usage = pure (get_help title usage [])

  -- `sigs.New` and what is done with the sig.
  unfoldable pub with_sig : Str → Str → (Sigs.Sig → M (List MessageSend)) → M (List MessageSend)
  with_sig member sig next =
      check (Sigs.new env member sig author)
        (λ e.
          pure (
            send_error (some author) (lit "error instantiating sigs object: " ++ env.error_text e)))
        next

  unfoldable pub sig_list : List Str → M (List MessageSend)
  unfolding sig_help
  sig_list [] = list env true false channel_id
  sig_list (c ∷ args) =
      if c == lit "all"
      then list env true true channel_id
      else if c == lit "members"
      then members_of env true
          (sig_help (lit "!sig list members help") (lit "!sig list members <sig_name>")) args
      else if c == lit "membership"
      then membership_of env true author args
      else pure (get_help (lit "!sig list help") (lit "!sig list <sub-command>") sig_subcommands)

  -- The text after the ticker says whether everybody may join.
  unfoldable pub create_sig : Str → Str → Str → Option Bool → M (List MessageSend)
  create_sig ticker name text none = pure (
      send_error (some author)
        (lit "Error parsing joinable `" ++ (text ++ lit "` is not a bool value")))
  create_sig ticker name text (some joinable) =
      authed_add env true joinable ticker name (lit "discord") author

  unfoldable pub sig_create : List Str → M (List MessageSend)
  unfolding sig_help create_sig
  sig_create (ticker ∷ text ∷ word ∷ words) =
      create_sig ticker (join_spaces (word ∷ words)) text (parse_bool text)
  sig_create _ =
      sig_help (lit "!sig create help") (lit "!sig create <sig_name> <joinable> <sig_description>")

  unfoldable pub sig_destroy : List Str → M (List MessageSend)
  unfolding sig_help
  sig_destroy (ticker ∷ args) = authed_destroy env true ticker author
  sig_destroy [] = sig_help (lit "!sig destroy help") (lit "!sig destroy <sig_name>")

  unfoldable pub sig_info : List Str → M (List MessageSend)
  unfolding sig_help
  sig_info (ticker ∷ args) = info env true ticker
  sig_info [] = sig_help (lit "!sig info help") (lit "!sig info <sig_name>")

  unfoldable pub sig_set : List Str → M (List MessageSend)
  unfolding sig_help
  sig_set (ticker ∷ key ∷ value ∷ args) = authed_update env true ticker key value author
  sig_set _ = sig_help (lit "!sig set help") (lit "!sig set <sig_name> <key> <value>")

  unfoldable pub sig_add : List Str → M (List MessageSend)
  unfolding sig_help with_sig
  sig_add (user ∷ sig ∷ args) = with_sig user sig (Sigs.add env lib)
  sig_add _ = sig_help (lit "!sig add help") (lit "!sig add <user> <sig>")

  unfoldable pub sig_remove : List Str → M (List MessageSend)
  unfolding sig_help with_sig
  sig_remove (user ∷ sig ∷ args) = with_sig user sig (Sigs.remove env lib)
  sig_remove _ = sig_help (lit "!sig remove help") (lit "!sig remove <user> <sig>")

  unfoldable pub sig_join : List Str → M (List MessageSend)
  unfolding sig_help with_sig
  sig_join (sig ∷ args) = with_sig author sig (Sigs.join env lib)
  sig_join [] = sig_help (lit "!sig join help") (lit "!sig join <sig>")

  unfoldable pub sig_leave : List Str → M (List MessageSend)
  unfolding sig_help with_sig
  sig_leave (sig ∷ args) = with_sig author sig (Sigs.leave env lib)
  sig_leave [] = sig_help (lit "!sig leave help") (lit "!sig leave <sig>")

  filter_list : List Str → M (List MessageSend)
  unfolding sig_help
  filter_list (ticker ∷ args) = list_filters env true ticker
  filter_list [] = sig_help (lit "!sig filter list help") (lit "!sig filter list <role>")

  filter_add : List Str → M (List MessageSend)
  unfolding sig_help
  filter_add (filter ∷ ticker ∷ args) = authed_add_filter env true filter ticker author
  filter_add _ = sig_help (lit "!sig filter add help") (lit "!sig filter add <filter> <role>")

  filter_remove : List Str → M (List MessageSend)
  unfolding sig_help
  filter_remove (filter ∷ ticker ∷ args) = authed_remove_filter env true filter ticker author
  filter_remove _ =
      sig_help (lit "!sig filter remove help") (lit "!sig filter remove <filter> <role>")

  -- What follows `!sig filter`.
  unfoldable pub sig_filter : List Str → M (List MessageSend)
  unfolding sig_help filter_list filter_add filter_remove
  sig_filter [] = pure (get_help (lit "!sig filter help") (lit "!sig filter") sig_subcommands)
  sig_filter (c ∷ args) =
      if c == lit "list"
      then filter_list args
      else if c == lit "add"
      then filter_add args
      else if c == lit "remove"
      then filter_remove args
      else sig_help (lit "!sig filter list help") (lit "!sig filter list <role>")

  -- The switch on `cmdStr[1]`.
  unfoldable pub sig_switch : List Str → M (List MessageSend)
  sig_switch (command ∷ sub ∷ args) =
      if sub == lit "list"
      then sig_list args
      else if sub == lit "create"
      then sig_create args
      else if sub == lit "destroy"
      then sig_destroy args
      else if sub == lit "info"
      then sig_info args
      else if sub == lit "set"
      then sig_set args
      else if sub == lit "add"
      then sig_add args
      else if sub == lit "remove"
      then sig_remove args
      else if sub == lit "join"
      then sig_join args
      else if sub == lit "leave"
      then sig_leave args
      else if sub == lit "keys"
      then pure keys
      else if sub == lit "types"
      then pure types
      else if sub == lit "filter"
      then sig_filter args
      else pure (get_help (lit "!sig help") sig_usage sig_subcommands)
  sig_switch _ = pure (get_help (lit "!sig help") sig_usage sig_subcommands)

  unfoldable pub do_sig : Str → M (List MessageSend)
  unfolding sig_switch
  do_sig content = sig_switch (split_spaces content)
