-- ===== src/Roles/Changes.antt =====
-- internal/roles/roles.go: Add and Destroy.
use chremoas_ng.Base.{ℕ, Bool, not, none, some, List, [], ◌∷◌, ◌++◌, if◌then◌else◌, Option}
use chremoas_ng.Base.Text.{Str, lit, decimal, is_empty}
use chremoas_ng.Payloads.{Action, zero_role}
use chremoas_ng.Common.Embed.{new_embed, set_title}
use chremoas_ng.Common.Messages.{send_success, send_error, send_fatal}
use chremoas_ng.Filters.Commands as FilterCommands
use chremoas_ng.Storage.Roles.{role_type, get_role, insert_role, delete_role}
use chremoas_ng.Storage.RoleFilters.{insert_role_filter}
use chremoas_ng.World.{
  Env, M, pure, ◌>>=◌, check, MessageSend, embed, is_no_role, is_role_exists, is_role_filter_exists,
}
use chremoas_ng.Roles.Helpers.{role_types, valid_list_item, queue_update, as_admin}

-- The title alone, before what the filters service answers.
filter_response : MessageSend
filter_response = embed (set_title (lit "filter response") new_embed)

unfoldable pub filter_description : Bool → Str → Str
filter_description sig ticker =
    lit "Auto-created filter for " ++ (role_type sig ++ (lit " " ++ ticker))

unfoldable pub created : Bool → Str → List MessageSend → List MessageSend
unfolding filter_response
created sig ticker replies =
    send_success none (lit "Created " ++ (role_type sig ++ (lit " `" ++ (ticker ++ lit "`"))))
    ++ (filter_response ∷ replies)

unfoldable pub destroyed : Bool → Str → List MessageSend
unfolding filter_response
destroyed sig ticker =
    send_success none (lit "Destroyed " ++ (role_type sig ++ (lit " `" ++ (ticker ++ lit "`"))))
    ++ (filter_response ∷ [])

module _ (env : Env) where
  -- The role filter and the message to Discord, once the filter has been added.
  unfoldable pub finish_add :
      Bool → Str → Str → ℕ → List MessageSend × Option ℕ → M (List MessageSend)
  finish_add sig ticker name role_id (filter_replies, filter_id) =
      check (insert_role_filter env role_id filter_id)
        (λ e. pure (
          if is_role_filter_exists e
          then send_error none (lit "Role filter already exists")
          else send_error none (lit "Error inserting role filter")))
        λ _.
          check (queue_update env (record zero_role { name = name }) Action.upsert)
            (λ e. pure (
              send_fatal none (
                lit "error adding role for " ++ (role_type sig ++ (lit ": " ++ env.error_text e)))))
            (λ _. pure (created sig ticker filter_replies))

  -- What follows the checks of the arguments.
  unfoldable pub create : Bool → Bool → Str → Str → Str → M (List MessageSend)
  unfolding finish_add
  create sig joinable ticker name chat_type =
      check (insert_role env name ticker chat_type sig joinable)
        (λ e. pure (
          if is_role_exists e
          then send_error none (lit "Role already exists: " ++ name)
          else send_error none (lit "Error inserting role: " ++ name)))
        λ role_id. FilterCommands.add env ticker (filter_description sig ticker) >>= λ reply.
          finish_add sig ticker name role_id reply

  unfoldable pub add : Bool → Bool → Str → Str → Str → M (List MessageSend)
  unfolding create
  add sig joinable ticker name chat_type =
      if is_empty chat_type
      then pure (send_error none (lit "type is required"))
      else if is_empty ticker
      then pure (send_error none (lit "short name is required"))
      else if is_empty name
      then pure (send_error none (lit "name is required"))
      else if not (valid_list_item chat_type role_types)
      then pure (send_error none (lit "`" ++ (chat_type ++ lit "` isn't a valid Role Type")))
      else create sig joinable ticker name chat_type

  unfoldable pub authed_add : Bool → Bool → Str → Str → Str → Str → M (List MessageSend)
  unfolding add
  authed_add sig joinable ticker name chat_type author =
      as_admin env sig none author (add sig joinable ticker name chat_type)

  unfoldable pub destroy : Bool → Str → M (List MessageSend)
  destroy sig ticker =
      if is_empty ticker
      then pure (send_error none (lit "short name is required"))
      else check (get_role env [] ticker (some sig))
          (λ e. pure (
            if is_no_role e
            then send_error none (lit "No such role")
            else send_error none (lit "Error getting role")))
          λ role.
            check (delete_role env ticker sig)
              (λ e. pure (send_error none (lit "Error deleting role")))
              λ _.
                check
                  (queue_update env (record zero_role { id = decimal role.chat_id }) Action.delete)
                  (λ e. pure (
                    send_fatal none (
                      lit "error deleting role for "
                      ++ (role_type sig ++ (lit ": " ++ env.error_text e)))))
                  (λ _. pure (destroyed sig ticker))

  unfoldable pub authed_destroy : Bool → Str → Str → M (List MessageSend)
  unfolding destroy
  authed_destroy sig ticker author = as_admin env sig none author (destroy sig ticker)
