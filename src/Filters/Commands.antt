-- ===== src/Filters/Commands.antt =====
-- internal/filters/filters.go: the commands that list, add and delete filters.
use chremoas_ng.Base.{ℕ, Option, none, some, List, [], ◌∷◌, ◌++◌, map, if◌then◌else◌}
use chremoas_ng.Base.Text.{Str, lit, decimal}
use chremoas_ng.Base.Sort.{sort_strings}
use chremoas_ng.Payloads.{Filter}
use chremoas_ng.Common.Messages.{send_success, send_error, send_fatal}
use chremoas_ng.Common.Session.{get_username}
use chremoas_ng.Common.Chunks.{send_chunked_message}
use chremoas_ng.Storage.Filters.{get_filters, insert_filter, delete_filter, list_filter_members}
use chremoas_ng.World.{
  Env, M, pure, ◌>>=◌, check, MessageSend, is_filter_exists, is_not_filter_member, is_no_filter,
}
use chremoas_ng.Filters.Members.{as_role_admin}

filter_line : Filter → Str
filter_line f = f.name ++ (lit ": " ++ f.description)

module _ (env : Env) where
  -- The end of both lists: nothing to show, or one chunked message.
  unfoldable pub send_list : Str → Str → List Str → M (List MessageSend)
  send_list channel_id empty [] = pure (send_error none empty)
  send_list channel_id empty (l ∷ ls) =
      check (send_chunked_message env channel_id (lit "Filter List") (l ∷ ls))
        (λ e. pure (send_error none (lit "Error sending chunked message: " ++ env.error_text e)))
        (λ _. pure [])

  unfoldable pub list : Str → M (List MessageSend)
  unfolding filter_line send_list sort_strings
  list channel_id =
      check (get_filters env)
        (λ e. pure (send_fatal none (lit "Error getting filters: " ++ env.error_text e)))
        (λ filters.
          send_list channel_id (lit "No filters") (sort_strings (map filter_line filters)))

  -- The id is -1 with an error, which is written `none`.
  unfoldable pub add : Str → Str → M (List MessageSend × Option ℕ)
  add name description =
      check (insert_filter env name description)
        (λ e. pure (
          if is_filter_exists e
          then (send_error none (lit "Filter already exists: " ++ name), none)
          else (send_error none (lit "Error inserting filter:" ++ env.error_text e), none)))
        (λ id. pure (send_success none (lit "Created filter `" ++ (name ++ lit "`")), some id))

  unfoldable pub authed_add : Str → Str → Str → M (List MessageSend × Option ℕ)
  unfolding as_role_admin
  authed_add name description author =
      as_role_admin env author (λ reply. (reply, none)) (add name description)

  unfoldable pub delete : Str → M (List MessageSend)
  delete name =
      check (delete_filter env name)
        (λ e. pure (
          if is_not_filter_member e
          then send_error none (lit "User not a member of filter: " ++ name)
          else if is_no_filter e
          then send_error none (lit "No such filter: " ++ name)
          else send_error none (lit "Error deleting filter: " ++ name)))
        (λ _. pure (send_success none (lit "Deleted filter `" ++ (name ++ lit "`"))))

  unfoldable pub authed_delete : Str → Str → M (List MessageSend)
  unfolding as_role_admin
  authed_delete name author = as_role_admin env author (λ reply. reply) (delete name)

  unfoldable pub usernames : List ℕ → M (List Str)
  usernames [] = pure []
  usernames (u ∷ us) =
      get_username env (decimal u) >>= λ name. usernames us >>= λ names. pure (name ∷ names)

  unfoldable pub list_members : Str → Str → M (List MessageSend)
  unfolding usernames send_list sort_strings
  list_members filter channel_id =
      check (list_filter_members env filter)
        (λ e.
          pure (send_error none (lit "Error getting filter member list for filter: " ++ filter)))
        λ user_ids. usernames user_ids >>= λ names.
          send_list channel_id (lit "No members in filter: " ++ filter) (sort_strings names)
