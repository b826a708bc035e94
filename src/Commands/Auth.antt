-- ===== src/Commands/Auth.antt =====
-- internal/commands/auth.go: `!auth`.
use chremoas_ng.Base.{List, [], ◌∷◌, ◌==◌, bytes_eq, if◌then◌else◌}
use chremoas_ng.Base.Text.{Str, lit}
use chremoas_ng.Auth.Confirm.{confirm}
use chremoas_ng.Common.StringSets.{StringSets}
use chremoas_ng.World.{Env, M, pure, MessageSend}
use chremoas_ng.Commands.Help.{get_help, split_spaces}

unfoldable pub auth_usage : Str
auth_usage = lit "!auth <token>"

module _ (env : Env) (lib : StringSets) (author : Str) where
  unfoldable pub auth_switch : List Str → M (List MessageSend)
  auth_switch (command ∷ sub ∷ args) =
      if sub == lit "help"
      then pure (get_help (lit "!auth help") auth_usage [])
      else confirm env lib sub author
  auth_switch _ = pure (get_help (lit "!auth help") auth_usage [])

  unfoldable pub do_auth : Str → M (List MessageSend)
  unfolding auth_switch
  do_auth content = auth_switch (split_spaces content)
