-- ===== src/Perms.antt =====
-- internal/perms/perms.go: permissions, and who may do what. The caller's reply comes back; logging
-- is left out.
pub mod Refusal
pub mod Keeps
pub mod Access
use chremoas_ng.Base.{
  ℕ, Option, none, some, List, [], ◌∷◌, ◌++◌, map, ◌==◌, nat_eq, bytes_eq, if◌then◌else◌,
}
use chremoas_ng.Base.Text.{Str, lit, decimal}
use chremoas_ng.Payloads.{Permission}
use chremoas_ng.Common.Embed.{new_embed, set_title, set_description}
use chremoas_ng.Common.Messages.{send_success, send_error}
use chremoas_ng.Common.Mention.{is_discord_user, extract_user_id}
use chremoas_ng.Common.Session.{get_username}
use chremoas_ng.Common.Chunks.{send_chunked_message}
use chremoas_ng.Storage.Permissions.{
  get_permission, get_permissions, insert_permission, delete_permission, list_permission_members,
  insert_permission_membership, delete_permission_membership, get_user_permissions,
  get_permission_count,
}
use chremoas_ng.World.{
  Env, M, pure, ◌>>=◌, check, Result, ok, err, MessageSend, embed, is_permission_exists,
  is_permission_member, is_no_permission,
}

-- `serverAdmins`
unfoldable pub server_admins : Str
server_admins = lit "server_admins"

-- The author under which the web front end acts.
unfoldable pub auth_web : Str
auth_web = lit "auth-web"

module _ (env : Env) where
  -- The count is read, and the branch on it returns `err`, which is nil there.
  unfoldable pub can_perform : Str → Str → M (Result Unit)
  unfolding auth_web
  can_perform author_id permission =
      if author_id == auth_web
      then pure (ok tt)
      else check (get_permission env permission) (λ e. pure (err e))
          λ perm.
            check (get_permission_count env author_id perm.id) (λ e. pure (err e))
              λ count. if count == 0 then pure (ok tt) else pure (ok tt)

  permission_line : Permission → Str
  permission_line p = p.name ++ (lit ": " ++ p.description)

  -- The end of the list: nothing to show, or one chunked message.
  send_list : Str → List Str → M (List MessageSend)
  send_list channel_id [] = pure (send_error none (lit "No permissions"))
  send_list channel_id (p ∷ ps) =
      check (send_chunked_message env channel_id (lit "Perm List") (p ∷ ps))
        (λ e. pure (send_error none (lit "Error sending chunked message: " ++ env.error_text e)))
        (λ _. pure [])

  unfoldable pub list : Str → M (List MessageSend)
  unfolding permission_line send_list
  list channel_id =
      check (get_permissions env)
        (λ e. pure (send_error none (lit "Error getting permissions: " ++ env.error_text e)))
        (λ permissions. send_list channel_id (map permission_line permissions))

  no_rights : Str → M (List MessageSend)
  no_rights author =
      pure (send_error (some author) (lit "User doesn't have rights to this permission"))

  not_permitted : Str → M (List MessageSend)
  not_permitted author =
      pure (send_error (some author) (lit "User doesn't have permission to this command"))

  -- The two guards of the commands that change permissions.
  unfoldable pub guarded : Str → Str → M (List MessageSend) → M (List MessageSend)
  unfolding no_rights not_permitted
  guarded permission author next =
      if permission == server_admins
      then no_rights author
      else check (can_perform author server_admins) (λ e. not_permitted author) (λ _. next)

  unfoldable pub add : Str → Str → Str → M (List MessageSend)
  add permission description author = guarded permission author (
      check (insert_permission env permission description)
        (λ e. pure (
          if is_permission_exists e
          then send_error (some author) (lit "Permission already exists: " ++ permission)
          else send_error (some author) (lit "Error inserting permission: " ++ permission)))
        (λ _. pure (send_success none (lit "Created permission `" ++ (permission ++ lit "`")))))

  unfoldable pub delete : Str → Str → M (List MessageSend)
  delete permission author = guarded permission author (
      check (delete_permission env permission)
        (λ e. pure (send_error (some author) (lit "Error deleting permission: " ++ permission)))
        (λ _. pure (send_success none (lit "Deleted permission `" ++ (permission ++ lit "`")))))

  -- The loop over the members writes a line for each.
  member_lines : List ℕ → M Str
  member_lines [] = pure []
  member_lines (u ∷ us) = get_username env (decimal u) >>= λ name.
      member_lines us >>= λ rest. pure (name ++ (10 ∷ rest))

  show_members : Str → List ℕ → M (List MessageSend)
  show_members permission [] =
      pure (send_error none (lit "Permission has no members: " ++ permission))
  show_members permission (u ∷ us) = member_lines (u ∷ us) >>= λ buffer.
      pure
        (embed (set_description buffer (set_title (permission ++ lit " members") new_embed)) ∷ [])

  unfoldable pub list_members : Str → M (List MessageSend)
  unfolding member_lines show_members
  list_members permission =
      check (list_permission_members env permission)
        (λ e. pure (send_error none (lit "Error listing permission membership for " ++ permission)))
        (show_members permission)

  not_a_user : Option Str → M (List MessageSend)
  not_a_user sender = pure (send_error sender (lit "second argument must be a discord user"))

  -- `permissionID` is declared and never assigned: the membership is inserted for id 0.
  unfoldable pub add_member : Str → Str → Str → M (List MessageSend)
  unfolding not_a_user
  add_member user permission author = guarded permission author (
      if is_discord_user user
      then (extract_user_id user >>= λ user_id.
          check (get_permission env permission)
            (λ e. pure (
              if is_no_permission e
              then send_error (some author) (lit "No such permission: " ++ permission)
              else send_error (some author) (lit "Error getting permission: " ++ permission)))
            λ perm.
              check (insert_permission_membership env 0 user_id)
                (λ e. pure (
                  if is_permission_member e
                  then send_error (some author)
                      (lit "Already a member of permission: " ++ permission)
                  else send_error (some author)
                      (lit "Error inserting permission membership: " ++ permission)))
                λ _. get_username env user_id >>= λ name. pure (
                  send_success none
                    (lit "Added " ++ (name ++ (lit " to `" ++ (permission ++ lit "`"))))))
      else not_a_user (some author))

  unfoldable pub remove_member : Str → Str → Str → M (List MessageSend)
  unfolding not_a_user
  remove_member user permission author = guarded permission author (
      if is_discord_user user
      then (extract_user_id user >>= λ user_id.
          check (get_permission env permission)
            (λ e. pure (send_error (some author) (lit "Error getting permission: " ++ permission)))
            λ perm.
              check (delete_permission_membership env perm.id user_id)
                (λ e. pure (
                  send_error (some author)
                    (lit "Error removing permission membership: " ++ env.error_text e)))
                λ _. get_username env user_id >>= λ name. pure (
                  send_success none
                    (lit "Removed <@" ++ (name ++ (lit "> from `" ++ (permission ++ lit "`"))))))
      else not_a_user (some author))

  -- The lines of the embed.
  name_lines : List Permission → Str
  name_lines [] = []
  name_lines (p ∷ ps) = (9 ∷ p.name) ++ (10 ∷ name_lines ps)

  unfoldable pub user_perms : Str → M (List MessageSend)
  unfolding name_lines not_a_user
  user_perms user =
      if is_discord_user user
      then (extract_user_id user >>= λ user_id.
          check (get_user_permissions env user_id)
            (λ e.
              pure (send_error none (lit "Error getting user permissions: " ++ env.error_text e)))
            λ permissions. get_username env user_id >>= λ name. pure (
              embed (
                set_description (name_lines permissions)
                  (set_title (name ++ lit "'s Permissions") new_embed))
              ∷ []))
      else not_a_user none
