-- ===== src/Roles/Helpers.antt =====
-- internal/roles/helpers.go, the texts of internal/roles/roles.go, and the check of the author.
use chremoas_ng.Base.{ℕ, Bool, true, false, List, [], ◌∷◌, ◌++◌, bytes_eq, contains, map, Option}
use chremoas_ng.Base.Text.{Str, lit}
use chremoas_ng.Payloads.{Action, Role, RolePayload}
use chremoas_ng.Common.Embed.{new_embed, set_title, set_description}
use chremoas_ng.Common.Messages.{send_error}
use chremoas_ng.Common.Session.{publish_role}
use chremoas_ng.Perms.{can_perform}
use chremoas_ng.Storage.Filters.{get_role_members}
use chremoas_ng.Storage.RoleFilters.{get_role_filters}
use chremoas_ng.World.{Env, M, pure, check, MessageSend, embed, Result, ok, err}

-- `roleKeys`: the columns that a user may update.
unfoldable pub role_keys : List Str
role_keys =
    lit "Name"
    ∷ lit "Color"
    ∷ lit "Hoist"
    ∷ lit "Position"
    ∷ lit "Permissions"
    ∷ lit "Joinable"
    ∷ lit "Managed"
    ∷ lit "Mentionable"
    ∷ lit "Sync"
    ∷ []

unfoldable pub role_types : List Str
role_types = lit "internal" ∷ lit "discord" ∷ []

unfoldable pub client_type : Bool → Str
client_type true = lit "SIG"
client_type false = lit "Role"

unfoldable pub admin_type : Bool → Str
admin_type true = lit "sig_admins"
admin_type false = lit "role_admins"

unfoldable pub valid_list_item : Str → List Str → Bool
valid_list_item a list = contains list a

-- `buffer.WriteString(fmt.Sprintf("%s\n", line))` for each line.
unfoldable pub write_lines : List Str → Str
write_lines [] = []
write_lines (l ∷ ls) = l ++ (10 ∷ write_lines ls)

-- An embed with a title and a description, alone.
unfoldable pub reply_embed : Str → Str → List MessageSend
reply_embed title description = embed (set_description description (set_title title new_embed)) ∷ []

module _ (env : Env) where
  unfoldable pub queue_update : Role → Action → M (Result Unit)
  queue_update role action =
      let payload : RolePayload = record {
        action = action;
        guild_id = env.guild_id;
        role = role;
        correlation_id = env.correlation_id;
      } in
      check (publish_role env payload) (λ e. pure (err e)) (λ _. pure (ok tt))

  unfoldable pub get_members : Bool → Str → M (Result (List ℕ))
  get_members sig name =
      check (get_role_filters env sig name) (λ e. pure (err e))
        λ role_filters.
          check (get_role_members env (map (λ rf. rf.filter) role_filters)) (λ e. pure (err e))
            (λ members. pure (ok members))

  -- `perms.CanPerform(ctx, author, adminType[sig], deps)` before a command.
  unfoldable pub as_admin : Bool → Option Str → Str → M (List MessageSend) → M (List MessageSend)
  unfolding admin_type
  as_admin sig sender author next =
      check (can_perform env author (admin_type sig))
        (λ e. pure (send_error sender (lit "User doesn't have permission to this command")))
        (λ _. next)
